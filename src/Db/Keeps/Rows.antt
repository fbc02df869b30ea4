-- ===== src/Db/Keeps/Rows.antt =====
-- Well-formedness and the statements on domains, sessions and traffic (src/internal/db).
use lxc_hosting.Base.{
  ℕ, ◌+◌, ◌<◌, ◌≡◌, ◌≢◌, refl, sym, subst, Bool, false, List, [], ◌∷◌, ◌++◌, ◌==◌, Text, text_eq,
  text_eq_iff, arith, All, All-imp, All-append, All-delete_where, All-update_where, All-has_row,
  Unique-delete_where, Unique-update_where, Unique-snoc, has_row, delete_where, Bool-cases, inl,
  inr,
}
use lxc_hosting.Db.{User, Domain, Session, Db, ok}
use lxc_hosting.Db.Domains.{owned, add_domain, delete_domain, set_domain_protocol}
use lxc_hosting.Db.Sessions.{
  create_session, delete_session, delete_sessions_for_user, delete_sessions_for_user_except,
}
use lxc_hosting.Db.Valid.{HasUser, IsValidDomains, IsValid}

text_key_new {ℓ} :
    {A : Type ℓ} (key : A → Text) (k : Text) (rows : List A)
    → has_row (λ x. text_eq (key x) k) rows ≡ false
    → All (λ x. k ≢ key x) rows
text_key_new key k rows h =
    All-imp (λ x. text_eq (key x) k ≡ false) (λ x. k ≢ key x) rows
      (λ x p e. ground (arith, (text_eq_iff (key x) k).1 (sym e)))
      (All-has_row (λ x. text_eq (key x) k) rows h)

add-IsValidDomains :
    (users : List User) (domains : List Domain) (next : ℕ) (d : Domain)
    → d.id ≡ next
    → has_row (λ x. text_eq x.domain d.domain) domains ≡ false
    → HasUser users d.user_id
    → IsValidDomains users domains next
    → IsValidDomains users (domains ++ d ∷ []) (next + 1)
add-IsValidDomains users domains next d e new owner v = record {
  below =
      All-append (λ x. x.id < next + 1) domains (d ∷ [])
        (All-imp (λ x. x.id < next) (λ x. x.id < next + 1) domains (λ x p. omega arith) v.below)
        (omega arith, tt);
  ids =
      Unique-snoc (λ x. x.id) domains d v.ids
        (All-imp (λ x. x.id < next) (λ x. d.id ≢ x.id) domains (λ x p. omega arith) v.below);
  names =
      Unique-snoc (λ x. x.domain) domains d v.names
        (text_key_new (λ x. x.domain) d.domain domains new);
  owners = All-append (λ x. HasUser users x.user_id) domains (d ∷ []) v.owners (owner, tt);
}

-- A successful INSERT of a domain keeps the database well formed.
pub add_domain-IsValid :
    (db db' : Db) (user_id : ℕ) (domain : Text) (on : Bool) (now : Text) (d : Domain)
    → IsValid db
    → add_domain db user_id domain on now ≡ ok (d, db')
    → IsValid db'
unfolding add_domain
add_domain-IsValid db db' user_id domain on now d v h =
    elim (Bool-cases (has_row (λ x. text_eq x.domain domain) db.domains)) [
      | inl e ↦ absurd (cc (rw e at h))
      | inr e ↦ elim (Bool-cases (has_row (λ u. u.id == user_id) db.users)) [
        | inr f ↦ absurd (cc (rw (e, f) at h))
        | inl f ↦
            let row : Domain = record {
              id = db.next_domain;
              user_id = user_id;
              domain = domain;
              proxy_protocol = on;
              created_at = now;
              updated_at = now;
            } in
            let q : record db { domains = db.domains ++ row ∷ []; next_domain = db.next_domain + 1 }
                ≡ db' =
              ground (arith, e, f, h) in
            subst IsValid q (record {
              users = v.users;
              domains =
                  add-IsValidDomains db.users db.domains db.next_domain row refl e f v.domains;
              sessions = v.sessions;
              traffic = v.traffic;
            })
      ]
    ]

delete_rows-IsValid :
    (db : Db) (p : Domain → Bool)
    → IsValid db
    → IsValid (record db { domains = delete_where p db.domains })
delete_rows-IsValid db p v = record {
  users = v.users;
  domains = record {
    below = All-delete_where (λ d. d.id < db.next_domain) p db.domains v.domains.below;
    ids = Unique-delete_where (λ d. d.id) p db.domains v.domains.ids;
    names = Unique-delete_where (λ d. d.domain) p db.domains v.domains.names;
    owners = All-delete_where (λ d. HasUser db.users d.user_id) p db.domains v.domains.owners;
  };
  sessions = v.sessions;
  traffic = v.traffic;
}

pub delete_domain-IsValid :
    (db db' : Db) (user_id : ℕ) (domain : Text)
    → IsValid db
    → delete_domain db user_id domain ≡ ok db'
    → IsValid db'
unfolding delete_domain
delete_domain-IsValid db db' user_id domain v h =
    elim (Bool-cases (has_row (owned user_id domain) db.domains)) [
      | inr e ↦ absurd (cc (rw e at h))
      | inl e ↦
          let q : record db { domains = delete_where (owned user_id domain) db.domains } ≡ db' =
            ground (arith, e, h) in
          subst IsValid q (delete_rows-IsValid db (owned user_id domain) v)
    ]

pub set_domain_protocol-IsValid :
    (db : Db) (id : ℕ) (on : Bool) (now : Text)
    → IsValid db
    → IsValid (set_domain_protocol db id on now)
unfolding set_domain_protocol
set_domain_protocol-IsValid db id on now v =
    let p = λ (d : Domain). d.id == id in
    let f = λ (d : Domain). record d { proxy_protocol = on; updated_at = now } in
    record {
      users = v.users;
      domains = record {
        below =
            All-update_where (λ d. d.id < db.next_domain) p f db.domains (λ d h. h) v.domains.below;
        ids = Unique-update_where (λ d. d.id) p f db.domains (λ d. refl) v.domains.ids;
        names = Unique-update_where (λ d. d.domain) p f db.domains (λ d. refl) v.domains.names;
        owners =
            All-update_where (λ d. HasUser db.users d.user_id) p f db.domains (λ d h. h)
              v.domains.owners;
      };
      sessions = v.sessions;
      traffic = v.traffic;
    }

pub create_session-IsValid :
    (db db' : Db) (user_id days : ℕ) (token : Text) (now : ℕ) (s : Session)
    → IsValid db
    → create_session db user_id days token now ≡ ok (s, db')
    → IsValid db'
unfolding create_session
create_session-IsValid db db' user_id days token now s v h =
    elim (Bool-cases (has_row (λ x. text_eq x.token token) db.sessions)) [
      | inl e ↦ absurd (cc (rw e at h))
      | inr e ↦ elim (Bool-cases (has_row (λ u. u.id == user_id) db.users)) [
        | inr f ↦ absurd (cc (rw (e, f) at h))
        | inl f ↦
            let q : record db { sessions = db.sessions ++ s ∷ [] } ≡ db' =
              ground (arith, e, f, h) in
            let t : s.token ≡ token = ground (arith, e, f, h) in
            let o : s.user_id ≡ user_id = ground (arith, e, f, h) in
            subst IsValid q (record {
              users = v.users;
              domains = v.domains;
              sessions = record {
                tokens =
                    Unique-snoc (λ x. x.token) db.sessions s v.sessions.tokens
                      (subst (λ k. All (λ x. k ≢ x.token) db.sessions) (sym t)
                        (text_key_new (λ x. x.token) token db.sessions e));
                owners =
                    All-append (λ x. HasUser db.users x.user_id) db.sessions (s ∷ [])
                      v.sessions.owners (subst (HasUser db.users) (sym o) f, tt);
              };
              traffic = v.traffic;
            })
      ]
    ]

delete_session_rows-IsValid :
    (db : Db) (p : Session → Bool)
    → IsValid db
    → IsValid (record db { sessions = delete_where p db.sessions })
delete_session_rows-IsValid db p v = record {
  users = v.users;
  domains = v.domains;
  sessions = record {
    tokens = Unique-delete_where (λ s. s.token) p db.sessions v.sessions.tokens;
    owners = All-delete_where (λ s. HasUser db.users s.user_id) p db.sessions v.sessions.owners;
  };
  traffic = v.traffic;
}

pub delete_sessions_for_user-IsValid :
    (db : Db) (id : ℕ) → IsValid db → IsValid (delete_sessions_for_user db id)
unfolding delete_sessions_for_user
delete_sessions_for_user-IsValid db id = delete_session_rows-IsValid db _

pub delete_session-IsValid :
    (db : Db) (token : Text) → IsValid db → IsValid (delete_session db token)
unfolding delete_session
delete_session-IsValid db token = delete_session_rows-IsValid db _

pub delete_sessions_for_user_except-IsValid :
    (db : Db) (id : ℕ) (keep : Text)
    → IsValid db
    → IsValid (delete_sessions_for_user_except db id keep)
unfolding delete_sessions_for_user_except
delete_sessions_for_user_except-IsValid db id [] = delete_session_rows-IsValid db _
delete_sessions_for_user_except-IsValid db id (c ∷ keep) = delete_session_rows-IsValid db _
