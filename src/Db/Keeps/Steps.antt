-- ===== src/Db/Keeps/Steps.antt =====
-- The statements of the program as steps, and the databases that they reach (src/internal/db).
use lxc_hosting.Base.{
  ℕ, ◌≡◌, ◌≢◌, refl, subst, Bool, false, [], ◌∷◌, ◌++◌, ◌==◌, Text, text_eq, arith, All-imp,
  All-append, All-update_where, All-has_row, Unique-update_where, Unique-snoc, has_row, first_where,
  update_where, Bool-cases, Option-cases, inl, inr,
}
use lxc_hosting.Address.Ports.{Ipv4}
use lxc_hosting.Db.{User, Domain, Session, Traffic, Db, empty_db, ok}
use lxc_hosting.Db.Users.{
  create_user, delete_user, update_password, update_quotas, update_init_script,
  update_traffic_quota,
}
use lxc_hosting.Db.Domains.{add_domain, delete_domain, set_domain_protocol}
use lxc_hosting.Std.Int64.{int_lt}
use lxc_hosting.Db.Sessions.{
  create_session, delete_session, delete_sessions_for_user, delete_sessions_for_user_except,
  session_user,
}
use lxc_hosting.Db.Counters.{apply_traffic, advance}
use lxc_hosting.Db.Audit.{add_audit_log}
use lxc_hosting.Db.Settings.{set_setting}
use lxc_hosting.Db.Valid.{HasUser, IsValid, empty_db-IsValid}
use lxc_hosting.Db.Keeps.Users.{
  create_user-IsValid, delete_user-IsValid, update_password-IsValid, update_quotas-IsValid,
  update_init_script-IsValid, update_traffic_quota-IsValid,
}
use lxc_hosting.Db.Keeps.Rows.{
  add_domain-IsValid, delete_domain-IsValid, set_domain_protocol-IsValid, create_session-IsValid,
  delete_session-IsValid, delete_sessions_for_user-IsValid, delete_sessions_for_user_except-IsValid,
}

update_traffic-IsValid :
    (db : Db) (p : Traffic → Bool) (period : Text) (rx tx : ℕ)
    → IsValid db
    → IsValid (record db { traffic = update_where p (advance period rx tx) db.traffic })
update_traffic-IsValid db p period rx tx v = record {
  users = v.users;
  domains = v.domains;
  sessions = v.sessions;
  traffic =
      unfold advance in
      record {
        user_ids =
            Unique-update_where (λ t. t.user_id) p (advance period rx tx) db.traffic (λ t. refl)
              v.traffic.user_ids;
        owners =
            All-update_where (λ t. HasUser db.users t.user_id) p (advance period rx tx) db.traffic
              (λ t h. h) v.traffic.owners;
      };
}

add_traffic-IsValid :
    (db : Db) (t : Traffic)
    → has_row (λ x. x.user_id == t.user_id) db.traffic ≡ false
    → HasUser db.users t.user_id
    → IsValid db
    → IsValid (record db { traffic = db.traffic ++ t ∷ [] })
add_traffic-IsValid db t new owner v = record {
  users = v.users;
  domains = v.domains;
  sessions = v.sessions;
  traffic = record {
    user_ids =
        Unique-snoc (λ x. x.user_id) db.traffic t v.traffic.user_ids
          (All-imp (λ x. (x.user_id == t.user_id) ≡ false) (λ x. t.user_id ≢ x.user_id) db.traffic
            (λ x p. ground arith) (All-has_row (λ x. x.user_id == t.user_id) db.traffic new));
    owners =
        All-append (λ x. HasUser db.users x.user_id) db.traffic (t ∷ []) v.traffic.owners
          (owner, tt);
  };
}

apply_traffic-IsValid :
    (db db' : Db) (user_id : ℕ) (period : Text) (rx tx : ℕ)
    → IsValid db
    → apply_traffic db user_id period rx tx ≡ ok db'
    → IsValid db'
unfolding apply_traffic
apply_traffic-IsValid db db' user_id period rx tx v h =
    elim (Bool-cases (has_row (λ t. t.user_id == user_id) db.traffic)) [
      | inl e ↦
          subst IsValid (ground (arith, e, h))
            (update_traffic-IsValid db (λ t. t.user_id == user_id) period rx tx v)
      | inr e ↦ elim (Bool-cases (has_row (λ u. u.id == user_id) db.users)) [
        | inl f ↦ subst IsValid (ground (arith, e, f, h)) (
            add_traffic-IsValid db
              (record {
                user_id = user_id;
                period = period;
                upload = 0;
                download = 0;
                last_rx = rx;
                last_tx = tx;
              })
              e f v)
        | inr f ↦ absurd (cc (rw (e, f) at h))
      ]
    ]

session_user-IsValid :
    (db : Db) (token : Text) (now : ℕ) → IsValid db → IsValid (session_user db token now).1
unfolding session_user
session_user-IsValid db token now v =
    elim (Option-cases (first_where (λ s. text_eq s.token token) db.sessions)) [
      | inl e ↦ rw e v
      | inr (s, e) ↦ elim (Bool-cases (int_lt s.expires_at now)) [
        | inl old ↦ rw (e, old) (delete_session-IsValid db token v)
        | inr live ↦ rw (e, live) v
      ]
    ]

-- One statement of the program, with any arguments; one that fails changes nothing.
pub data Step (db : Db) : Db → Type 0 where
  users_insert :
      {db' : Db} (name pass_hash : Text) (ip : Ipv4) (idx ssh_port start_port cpu mem disk : ℕ)
      (now : Text) (u : User)
      → create_user db name pass_hash ip idx ssh_port start_port cpu mem disk now ≡ ok (u, db')
      → Step db db'
  users_delete : (id : ℕ) → Step db (delete_user db id)
  users_password : (id : ℕ) (hash : Text) → Step db (update_password db id hash)
  users_quotas : (id cpu mem disk : ℕ) → Step db (update_quotas db id cpu mem disk)
  users_script : (id : ℕ) (script : Text) → Step db (update_init_script db id script)
  users_traffic : (id gb : ℕ) → Step db (update_traffic_quota db id gb)
  domains_insert :
      {db' : Db} (user_id : ℕ) (domain : Text) (on : Bool) (now : Text) (d : Domain)
      → add_domain db user_id domain on now ≡ ok (d, db')
      → Step db db'
  domains_delete :
      {db' : Db} (user_id : ℕ) (domain : Text)
      → delete_domain db user_id domain ≡ ok db'
      → Step db db'
  domains_protocol : (id : ℕ) (on : Bool) (now : Text) → Step db (set_domain_protocol db id on now)
  sessions_insert :
      {db' : Db} (user_id days : ℕ) (token : Text) (now : ℕ) (s : Session)
      → create_session db user_id days token now ≡ ok (s, db')
      → Step db db'
  sessions_lookup : (token : Text) (now : ℕ) → Step db (session_user db token now).1
  sessions_delete : (token : Text) → Step db (delete_session db token)
  sessions_clear : (id : ℕ) → Step db (delete_sessions_for_user db id)
  sessions_clear_except :
      (id : ℕ) (keep : Text) → Step db (delete_sessions_for_user_except db id keep)
  traffic_sample :
      {db' : Db} (user_id : ℕ) (period : Text) (rx tx : ℕ)
      → apply_traffic db user_id period rx tx ≡ ok db'
      → Step db db'
  audit_insert : (actor action now : Text) → Step db (add_audit_log db actor action now)
  settings_set : (key value : Text) → Step db (set_setting db key value)

pub data Reach (db : Db) : Db → Type 0 where
  here : Reach db db
  next : {a b : Db} → Reach db a → Step a b → Reach db b

pub Step-IsValid : {a b : Db} → Step a b → IsValid a → IsValid b
unfolding add_audit_log set_setting
Step-IsValid {a} {b} (users_insert name hash ip idx ssh start cpu mem disk now u h) v =
    create_user-IsValid a b name hash ip idx ssh start cpu mem disk now u v h
Step-IsValid {a} (users_delete id) v = delete_user-IsValid a id v
Step-IsValid {a} (users_password id hash) v = update_password-IsValid a id hash v
Step-IsValid {a} (users_quotas id cpu mem disk) v = update_quotas-IsValid a id cpu mem disk v
Step-IsValid {a} (users_script id script) v = update_init_script-IsValid a id script v
Step-IsValid {a} (users_traffic id gb) v = update_traffic_quota-IsValid a id gb v
Step-IsValid {a} {b} (domains_insert user_id domain on now d h) v =
    add_domain-IsValid a b user_id domain on now d v h
Step-IsValid {a} {b} (domains_delete user_id domain h) v =
    delete_domain-IsValid a b user_id domain v h
Step-IsValid {a} (domains_protocol id on now) v = set_domain_protocol-IsValid a id on now v
Step-IsValid {a} {b} (sessions_insert user_id days token now s h) v =
    create_session-IsValid a b user_id days token now s v h
Step-IsValid {a} (sessions_lookup token now) v = session_user-IsValid a token now v
Step-IsValid {a} (sessions_delete token) v = delete_session-IsValid a token v
Step-IsValid {a} (sessions_clear id) v = delete_sessions_for_user-IsValid a id v
Step-IsValid {a} (sessions_clear_except id keep) v =
    delete_sessions_for_user_except-IsValid a id keep v
Step-IsValid {a} {b} (traffic_sample user_id period rx tx h) v =
    apply_traffic-IsValid a b user_id period rx tx v h
Step-IsValid (audit_insert actor action now) v = record {
  users = v.users;
  domains = v.domains;
  sessions = v.sessions;
  traffic = v.traffic;
}
Step-IsValid (settings_set key value) v = record {
  users = v.users;
  domains = v.domains;
  sessions = v.sessions;
  traffic = v.traffic;
}

-- Every database that the program's statements make from an empty one has unique ids, names,
-- indexes, SSH ports, domains and tokens, no id that is still to be given, and no row that refers to
-- a user who is not there.
pub Reach-IsValid : {db : Db} → Reach empty_db db → IsValid db
Reach-IsValid here = empty_db-IsValid
Reach-IsValid (next r s) = Step-IsValid s (Reach-IsValid r)
