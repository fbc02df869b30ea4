-- ===== src/Db/Others.antt =====
-- The rows that do not belong to one user, under the statements about that user
-- (src/internal/db/user.go, domain.go, session.go, audit.go).
use lxc_hosting.Base.{
  ℕ, ◌+◌, ◌≡◌, ◌≢◌, ◌∙◌, refl, sym, ap, subst, Bool, true, not, List, [], ◌∷◌, ◌++◌, ◌==◌, ==_iff,
  Text, arith, All, All-imp, All-update_where, Unique-update_where, All-first_where,
  first_where-true, text_eq, Unique, all_where, update_where, delete_where, first_where, some,
  has_row, Bool-cases, inl, inr,
}
use lxc_hosting.Db.{User, Domain, Db, ok}
use lxc_hosting.Db.Users.{update_password, update_init_script, or_no_rows-ok}
use lxc_hosting.Db.Sessions.{delete_sessions_for_user, delete_sessions_for_user_except}
use lxc_hosting.Db.Domains.{owned, add_domain, delete_domain, get_domain, set_domain_protocol}

module _ {ℓ} {A : Type ℓ} (owner : A → ℕ) (uid : ℕ) where
  -- the rows of everybody else
  abbrev pub others : List A → List A
  others = all_where (λ a. not (owner a == uid))

  pub others-update_where :
      (q : A → Bool) (f : A → A) (xs : List A)
      → ((a : A) → owner (f a) ≡ owner a)
      → All (λ a. q a ≡ true → owner a ≡ uid) xs
      → others (update_where q f xs) ≡ others xs
  unfolding all_where update_where
  others-update_where q f [] k h = refl
  others-update_where q f (x ∷ xs) k h = elim (Bool-cases (q x)) [
    | inl e ↦ ground (arith, k x, h.0 e, others-update_where q f xs k h.1)
    | inr e ↦ ground (arith, others-update_where q f xs k h.1)
  ]

  pub others-delete_where :
      (q : A → Bool) (xs : List A)
      → ((a : A) → q a ≡ true → owner a ≡ uid)
      → others (delete_where q xs) ≡ others xs
  unfolding all_where delete_where
  others-delete_where q [] h = refl
  others-delete_where q (x ∷ xs) h = elim (Bool-cases (q x)) [
    | inl e ↦ ground (arith, h x e, others-delete_where q xs h)
    | inr e ↦ ground (arith, others-delete_where q xs h)
  ]

  pub others-snoc : (xs : List A) (x : A) → owner x ≡ uid → others (xs ++ x ∷ []) ≡ others xs
  unfolding all_where
  others-snoc [] x h = ground arith
  others-snoc (y ∷ xs) x h = ground (arith, others-snoc xs x h)

-- The rows of the other users, of their domains and of all traffic are the same.
pub record SameOthers (uid : ℕ) (db db' : Db) : Type 0 where
  pub same_users :
      others (λ (u : User). u.id) uid db'.users ≡ others (λ (u : User). u.id) uid db.users
  pub same_domains :
      others (λ (d : Domain). d.user_id) uid db'.domains
      ≡ others (λ (d : Domain). d.user_id) uid db.domains
  pub same_traffic : db'.traffic ≡ db.traffic

pub SameOthers_refl : (uid : ℕ) (db : Db) → SameOthers uid db db
SameOthers_refl uid db = record { same_users = refl; same_domains = refl; same_traffic = refl }

pub SameOthers_trans :
    {uid : ℕ} {a b c : Db} → SameOthers uid a b → SameOthers uid b c → SameOthers uid a c
SameOthers_trans h k = record {
  same_users = k.same_users ∙ h.same_users;
  same_domains = k.same_domains ∙ h.same_domains;
  same_traffic = k.same_traffic ∙ h.same_traffic;
}

All-const {ℓ κ} : {A : Type ℓ} (P : A → Type κ) (xs : List A) → ((a : A) → P a) → All P xs
All-const P [] h = tt
All-const P (x ∷ xs) h = (h x, All-const P xs h)

update_user-others :
    (db : Db) (uid : ℕ) (f : User → User)
    → ((u : User) → (f u).id ≡ u.id)
    → SameOthers uid db (record db { users = update_where (λ u. u.id == uid) f db.users })
update_user-others db uid f k = record {
  same_users =
      others-update_where (λ (u : User). u.id) uid (λ u. u.id == uid) f db.users k
        (All-const (λ (u : User). (u.id == uid) ≡ true → u.id ≡ uid) db.users
          (λ u. (==_iff u.id uid).0));
  same_domains = refl;
  same_traffic = refl;
}

pub update_password-others :
    (db : Db) (uid : ℕ) (hash : Text) → SameOthers uid db (update_password db uid hash)
unfolding update_password
update_password-others db uid hash = update_user-others db uid _ (λ u. refl)

pub delete_sessions-others :
    (db : Db) (uid : ℕ) (keep : Text)
    → SameOthers uid db (delete_sessions_for_user_except db uid keep)
unfolding delete_sessions_for_user_except delete_sessions_for_user
delete_sessions-others db uid [] = record {
  same_users = refl;
  same_domains = refl;
  same_traffic = refl;
}
delete_sessions-others db uid (c ∷ keep) = record {
  same_users = refl;
  same_domains = refl;
  same_traffic = refl;
}

pub update_init_script-others :
    (db : Db) (uid : ℕ) (script : Text) → SameOthers uid db (update_init_script db uid script)
unfolding update_init_script
update_init_script-others db uid script = update_user-others db uid _ (λ u. refl)

pub add_domain-others :
    (db db' : Db) (uid : ℕ) (domain : Text) (on : Bool) (now : Text) (d : Domain)
    → add_domain db uid domain on now ≡ ok (d, db')
    → SameOthers uid db db'
unfolding add_domain
add_domain-others db db' uid domain on now d h =
    let new : Domain = record {
      id = db.next_domain;
      user_id = uid;
      domain = domain;
      proxy_protocol = on;
      created_at = now;
      updated_at = now;
    } in
    let after : Db = record db {
      domains = db.domains ++ new ∷ [];
      next_domain = db.next_domain + 1;
    } in
    elim (Bool-cases (has_row (λ x. text_eq x.domain domain) db.domains)) [
      | inl e ↦ absurd (cc (rw e at h))
      | inr e ↦ elim (Bool-cases (has_row (λ u. u.id == uid) db.users)) [
        | inr f ↦ absurd (cc (rw (e, f) at h))
        | inl f ↦
            let q : after ≡ db' = ground (arith, e, f, h) in
            subst (SameOthers uid db) q (record {
              same_users = refl;
              same_domains = others-snoc (λ (x : Domain). x.user_id) uid db.domains new refl;
              same_traffic = refl;
            })
      ]
    ]

owned-owner : (uid : ℕ) (domain : Text) (x : Domain) → owned uid domain x ≡ true → x.user_id ≡ uid
owned-owner uid domain x e = ground arith

pub delete_domain-others :
    (db db' : Db) (uid : ℕ) (domain : Text)
    → delete_domain db uid domain ≡ ok db'
    → SameOthers uid db db'
unfolding delete_domain
delete_domain-others db db' uid domain h =
    elim (Bool-cases (has_row (owned uid domain) db.domains)) [
      | inl t ↦
          let left : Db = record db { domains = delete_where (owned uid domain) db.domains } in
          let q : left ≡ db' = ground (arith, t, h) in
          subst (SameOthers uid db) q (record {
            same_users = refl;
            same_domains =
                others-delete_where (λ (x : Domain). x.user_id) uid (owned uid domain) db.domains
                  (λ x e. owned-owner uid domain x e);
            same_traffic = refl;
          })
      | inr t ↦ absurd (cc (rw t at h))
    ]

-- every row with the id of a found row has its owner, where ids are unique
same_owner :
    (q : Domain → Bool) (ds : List Domain) (d : Domain)
    → Unique (λ (x : Domain). x.id) ds
    → first_where q ds ≡ some d
    → All (λ (x : Domain). (x.id == d.id) ≡ true → x.user_id ≡ d.user_id) ds
unfolding first_where
same_owner q [] d u h = tt
same_owner q (x ∷ ds) d u h = elim (Bool-cases (q x)) [
  | inl e ↦
      let same : x ≡ d = ground (arith, e, h) in
      (
        λ _. ap (λ (y : Domain). y.user_id) same,
        All-imp (λ (y : Domain). x.id ≢ y.id)
            (λ (y : Domain). (y.id == d.id) ≡ true → y.user_id ≡ d.user_id) ds
            (λ y n k. absurd (n (ap (λ (z : Domain). z.id) same ∙ sym ((==_iff y.id d.id).0 k))))
            u.0,
      )
  | inr e ↦
      let found : first_where q ds ≡ some d = ground (arith, e, h) in
      (
        λ k.
            absurd (
              All-first_where (λ (y : Domain). x.id ≢ y.id) q ds u.0 found
                ((==_iff x.id d.id).0 k)),
        same_owner q ds d u.1 found,
      )
]

-- the rows with an id belong to one user
abbrev pub AllOwned : ℕ → ℕ → List Domain → Type 0
AllOwned uid id = All (λ (x : Domain). (x.id == id) ≡ true → x.user_id ≡ uid)

pub get_domain-AllOwned :
    (db : Db) (uid : ℕ) (domain : Text) (d : Domain)
    → Unique (λ (x : Domain). x.id) db.domains
    → get_domain db uid domain ≡ ok d
    → AllOwned uid d.id db.domains
unfolding get_domain
get_domain-AllOwned db uid domain d u h =
    let found = or_no_rows-ok (first_where (owned uid domain) db.domains) d h in
    let owner : d.user_id ≡ uid =
      owned-owner uid domain d (first_where-true (owned uid domain) db.domains found) in
    subst (λ n. All (λ (x : Domain). (x.id == d.id) ≡ true → x.user_id ≡ n) db.domains) owner
      (same_owner (owned uid domain) db.domains d u found)

pub set_domain_protocol-others :
    (db : Db) (uid id : ℕ) (on : Bool) (now : Text)
    → AllOwned uid id db.domains
    → SameOthers uid db (set_domain_protocol db id on now)
unfolding set_domain_protocol
set_domain_protocol-others db uid id on now h = record {
  same_users = refl;
  same_domains =
      others-update_where (λ (x : Domain). x.user_id) uid (λ x. x.id == id)
        (λ x. record x { proxy_protocol = on; updated_at = now }) db.domains (λ x. refl) h;
  same_traffic = refl;
}

pub set_domain_protocol-AllOwned :
    (db : Db) (uid id : ℕ) (on : Bool) (now : Text)
    → AllOwned uid id db.domains
    → AllOwned uid id (set_domain_protocol db id on now).domains
unfolding set_domain_protocol
set_domain_protocol-AllOwned db uid id on now h =
    All-update_where (λ (x : Domain). (x.id == id) ≡ true → x.user_id ≡ uid) (λ x. x.id == id)
      (λ x. record x { proxy_protocol = on; updated_at = now }) db.domains (λ x k. k) h

pub set_domain_protocol-Unique :
    (db : Db) (id : ℕ) (on : Bool) (now : Text)
    → Unique (λ (x : Domain). x.id) db.domains
    → Unique (λ (x : Domain). x.id) (set_domain_protocol db id on now).domains
unfolding set_domain_protocol
set_domain_protocol-Unique db id on now u =
    Unique-update_where (λ (x : Domain). x.id) (λ x. x.id == id)
      (λ x. record x { proxy_protocol = on; updated_at = now }) db.domains (λ x. refl) u
