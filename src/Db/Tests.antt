-- ===== src/Db/Tests.antt =====
-- A database with two users, made by the program's statements.
use mathlib.Core.List.{reverse}
use lxc_hosting.Base.{
  leb, true, ℕ, ◌+◌, ◌-◌, ◌*◌, length, ◌≡◌, refl, not, ◌&&◌, [], ◌∷◌, ◌++◌, ltb, ◌==◌,
  if◌then◌else◌, Text, codes, text_eq, none, some, arith, take, drop, first_where, has_row,
}
use lxc_hosting.Db.{User, Session, Traffic, Db, err, session_expired, empty_db}
use lxc_hosting.Db.Users.{create_user, insert_user, get_user_by_id}
use lxc_hosting.Db.Sessions.{
  create_session, delete_session, session_user, delete_sessions_for_user_except,
}
use lxc_hosting.Db.Sessions.Expiry.{find, session_user-create, session_kept}
use lxc_hosting.Db.Counters.{advance}
use lxc_hosting.Std.Time.{day_seconds, days_later, max_days}
use lxc_hosting.Db.Counters.Totals.{last_counters, Samples, sample_all, sample_all-exact}
use lxc_hosting.Db.Audit.{audit_retention, add_audit_log, list_audit_log}
use lxc_hosting.Db.Audit.Retention.{IsLog, entry, add_audit_log-IsLog, list_audit_log-reverse}
use lxc_hosting.Db.Valid.{IsValid}
use lxc_hosting.Db.Keeps.Steps.{Reach, here, next, users_insert, sessions_insert, Reach-IsValid}

abbrev now : Text
now = codes "2026-01-01"

abbrev user : ℕ → Text → ℕ → User
user id name idx = record {
  id = id;
  name = name;
  pass_hash = codes "hash";
  idx = idx;
  ip = record { a = 10; b = 0; c = 100; d = idx + 1 };
  ssh_port = 30000 + idx;
  start_port = 10000 + 100 * idx;
  init_script = [];
  cpu = 10;
  mem_mb = 512;
  disk_gb = 5;
  created_at = now;
  traffic_quota_gb = 0;
}

abbrev alice : User
alice = user 1 (codes "alice") 1

abbrev bob : User
bob = user 2 (codes "bob") 2

abbrev one_user : Db
one_user = record empty_db { users = alice ∷ []; next_user = 2 }

abbrev two_users : Db
two_users = record empty_db { users = alice ∷ bob ∷ []; next_user = 3 }

abbrev sess : Session
sess = record { token = codes "t0"; user_id = 2; expires_at = 1000 + 7 * 86400 }

abbrev with_session : Db
with_session = record two_users { sessions = sess ∷ [] }

abbrev row : Traffic
row = record {
  user_id = 1;
  period = codes "2026-01";
  upload = 0;
  download = 0;
  last_rx = 100;
  last_tx = 50;
}

abbrev with_traffic : Db
with_traffic = record with_session { traffic = row ∷ [] }

two_users-Reach : Reach empty_db with_session
unfolding create_user insert_user create_session has_row text_eq days_later
two_users-Reach =
    next
      (next
        (next here (
          users_insert (codes "alice") (codes "hash") alice.ip 1 30001 10100 10 512 5 now alice
            refl))
        (users_insert (codes "bob") (codes "hash") bob.ip 2 30002 10200 10 512 5 now bob refl))
      (sessions_insert 2 7 (codes "t0") 1000 sess refl)

Reach-IsValid_example : IsValid with_session
Reach-IsValid_example = Reach-IsValid two_users-Reach

session_user-create_example : session_user with_session (codes "t0") 900000 ≡ (
    if if leb 7 max_days then ltb (1000 + 7 * day_seconds) 900000 else true
    then (err session_expired, delete_session with_session (codes "t0"))
    else (get_user_by_id with_session 2, with_session))
unfolding create_session has_row days_later
session_user-create_example =
    session_user-create two_users with_session 2 7 (codes "t0") 1000 900000 sess refl (omega arith)
      (omega arith) (omega arith) (omega arith)

session_kept_example :
    find (delete_sessions_for_user_except with_session 2 (codes "x")) (codes "t0")
    ≡ (if 2 == 2 && not (text_eq (codes "t0") (codes "x")) then none else some sess)
unfolding first_where text_eq
session_kept_example =
    session_kept with_session 2 b'x' [] (codes "t0") sess (Reach-IsValid two_users-Reach) refl

abbrev samples : Samples
samples = (150, 80) ∷ (900, 95) ∷ []

sample_all-exact_example :
    let u = sample_all (codes "2026-01") samples row in
    let (rx, tx) = last_counters 100 50 samples in
    (u.download + 100 ≡ 0 + rx) × (u.upload + 50 ≡ 0 + tx) × (u.last_rx ≡ rx) × (u.last_tx ≡ tx)
sample_all-exact_example = sample_all-exact (codes "2026-01") samples row refl (omega arith)

abbrev sampled : Db
sampled = record with_traffic { traffic = advance (codes "2026-01") 150 80 row ∷ [] }

empty_db-IsLog : IsLog empty_db
empty_db-IsLog = record { ordered = omega arith; below = omega arith; bounded = omega arith }

abbrev after_login : Db
after_login = add_audit_log empty_db (codes "admin") (codes "login") now

add_audit_log-IsLog_example :
    IsLog after_login
    × (after_login.audit_log
        ≡ drop
            (length ([] ++ entry empty_db (codes "admin") (codes "login") now ∷ [])
              - audit_retention)
            ([] ++ entry empty_db (codes "admin") (codes "login") now ∷ []))
add_audit_log-IsLog_example =
    add_audit_log-IsLog empty_db (codes "admin") (codes "login") now empty_db-IsLog

abbrev logged : Db
logged = record empty_db {
  audit_log =
      record { id = 1; actor = codes "admin"; action = codes "login"; created_at = now } ∷ [];
  next_audit = 2;
}

logged-IsLog : IsLog logged
logged-IsLog = record { ordered = ground arith; below = ground arith; bounded = omega arith }

list_audit_log-reverse_example :
    list_audit_log logged 0 50 ≡ take 50 (drop 0 (reverse logged.audit_log))
list_audit_log-reverse_example = list_audit_log-reverse logged 0 50 logged-IsLog
