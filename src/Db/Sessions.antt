-- ===== src/Db/Sessions.antt =====
-- The sessions table (src/internal/db/session.go). The token is 32 bytes of crypto/rand in hex, and
-- the clock counts seconds: both are arguments. An expiry is the bit pattern of an int64.
pub mod Expiry
use lxc_hosting.Base.{
  ℕ, ◌+◌, ◌*◌, Bool, true, false, ◌||◌, ◌&&◌, not, List, [], ◌∷◌, ◌++◌, ltb, ◌==◌, if◌then◌else◌,
  Text, text_eq, Option, none, some, first_where, all_where, update_where, delete_where, has_row,
}
use lxc_hosting.Std.Int64.{int_lt}
use lxc_hosting.Std.Time.{days_later}
use lxc_hosting.Db.{User, Session, Db, DbResult, ok, err, constraint, no_rows, session_expired}
use lxc_hosting.Db.Users.{or_no_rows, get_user_by_id}

unfoldable pub create_session : Db → ℕ → ℕ → Text → ℕ → DbResult (Session × Db)
create_session db user_id days token now =
    let s : Session = record {
      token = token;
      user_id = user_id;
      expires_at = days_later now days;
    } in
    if has_row (λ x. text_eq x.token token) db.sessions
    then err constraint
    else if has_row (λ u. u.id == user_id) db.users
    then ok (s, record db { sessions = db.sessions ++ s ∷ [] })
    else err constraint

unfoldable pub delete_session : Db → Text → Db
delete_session db token = record db {
  sessions = delete_where (λ s. text_eq s.token token) db.sessions;
}

abbrev pub check_expiry : Db → Text → ℕ → Option Session → DbResult User × Db
check_expiry db token now none = (err no_rows, db)
check_expiry db token now (some s) =
    if int_lt s.expires_at now
    then (err session_expired, delete_session db token)
    else (get_user_by_id db s.user_id, db)

-- The user of an unexpired token; an expired one is deleted.
unfoldable pub session_user : Db → Text → ℕ → DbResult User × Db
unfolding get_user_by_id delete_session
session_user db token now =
    check_expiry db token now (first_where (λ s. text_eq s.token token) db.sessions)

unfoldable pub delete_sessions_for_user : Db → ℕ → Db
delete_sessions_for_user db user_id = record db {
  sessions = delete_where (λ s. s.user_id == user_id) db.sessions;
}

unfoldable pub delete_sessions_for_user_except : Db → ℕ → Text → Db
unfolding delete_sessions_for_user
delete_sessions_for_user_except db user_id [] = delete_sessions_for_user db user_id
delete_sessions_for_user_except db user_id (c ∷ keep) = record db {
  sessions =
      delete_where (λ s. s.user_id == user_id && not (text_eq s.token (c ∷ keep))) db.sessions;
}
