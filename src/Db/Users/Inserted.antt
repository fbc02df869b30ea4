-- ===== src/Db/Users/Inserted.antt =====
-- A new row of the users table, and its deletion (src/internal/db/user.go).
use lxc_hosting.Base.{
  ℕ, ◌+◌, ◌<◌, ◌≡◌, refl, Bool, true, false, List, [], ◌∷◌, ◌++◌, ltb, ◌==◌, text_eq, text_eq_refl,
  text_eq_sym, ap, has_row, delete_where, update_where, first_where, All, All-imp, All-has_row,
  first_where-snoc, delete_where_id, Bool-cases, inl, inr, if◌then◌else◌, arith, some,
}
use lxc_hosting.Db.{User, Db, DbResult}
use lxc_hosting.Db
use lxc_hosting.Db.Users.{
  clashes, insert_user, delete_user, update_traffic_quota, get_user_by_name, or_no_rows,
}
use lxc_hosting.Db.Valid.{HasUser, IsValid}

-- The rows of users, domains, sessions and traffic are the same.
pub record SameRows (db db' : Db) : Type 0 where
  pub same_users : db'.users ≡ db.users
  pub same_domains : db'.domains ≡ db.domains
  pub same_sessions : db'.sessions ≡ db.sessions
  pub same_traffic : db'.traffic ≡ db.traffic

pub SameRows-refl : (db : Db) → SameRows db db
SameRows-refl db = record {
  same_users = refl;
  same_domains = refl;
  same_sessions = refl;
  same_traffic = refl;
}

-- the traffic quota that is stored behind the insertion
abbrev pub with_quota : Db → ℕ → ℕ → Db
with_quota db id gb = if ltb 0 gb then update_traffic_quota db id gb else db

-- Deleting by a key, after an update of the rows with that key, where no other row has it.
delete_where-update_where {ℓ} :
    {A : Type ℓ} (p : A → Bool) (f : A → A) (xs : List A) (x : A)
    → All (λ a. p a ≡ false) xs
    → p x ≡ true
    → p (f x) ≡ true
    → (delete_where p (xs ++ x ∷ []) ≡ xs)
      × (delete_where p (update_where p f (xs ++ x ∷ [])) ≡ xs)
      × (update_where p f (xs ++ x ∷ []) ≡ xs ++ f x ∷ [])
unfolding delete_where update_where
delete_where-update_where p f [] x h e k = ground arith
delete_where-update_where p f (y ∷ xs) x h e k =
    ground (arith, delete_where-update_where p f xs x h.1 e k)

HasUser-below :
    (users : List User) (next id : ℕ)
    → All (λ u. u.id < next) users
    → HasUser users id
    → (id == next) ≡ false
unfolding has_row
HasUser-below [] next id h k = absurd (cc k)
HasUser-below (u ∷ users) next id h k = elim (Bool-cases (u.id == id)) [
  | inl e ↦ ground arith
  | inr e ↦ HasUser-below users next id h.1 (ground (arith, k))
]

abbrev pub inserted : Db → User → Db
inserted db v = record db { users = db.users ++ v ∷ []; next_user = db.next_user + 1 }

pub insert_user-inserted :
    (db db1 : Db) (v u : User)
    → insert_user db v ≡ Db.ok (u, db1)
    → (v ≡ u) × (inserted db v ≡ db1) × (has_row (clashes v) db.users ≡ false)
unfolding insert_user
insert_user-inserted db db1 v u h = elim (Bool-cases (has_row (clashes v) db.users)) [
  | inl e ↦ absurd (cc (rw e at h))
  | inr e ↦ (ground (arith, e, h), ground (arith, e, h), e)
]

-- what the cascade would delete with the new row
nothing_else {ℓ} :
    {A : Type ℓ} (db : Db) (id : ℕ) (owner : A → ℕ) (rows : List A)
    → id ≡ db.next_user
    → IsValid db
    → All (λ a. HasUser db.users (owner a)) rows
    → delete_where (λ a. owner a == id) rows ≡ rows
nothing_else db id owner rows e v h =
    delete_where_id (λ a. owner a == id) rows
      (All-imp (λ a. HasUser db.users (owner a)) (λ a. (owner a == id) ≡ false) rows
        (λ a p. rw e (HasUser-below db.users db.next_user (owner a) v.users.below p)) h)

pub rows_back :
    (db : Db) (v : User) (gb : ℕ)
    → v.id ≡ db.next_user
    → IsValid db
    → SameRows db (delete_user (with_quota (inserted db v) v.id gb) v.id)
unfolding delete_user update_traffic_quota
rows_back db v gb e valid =
    let old : All (λ u. (u.id == v.id) ≡ false) db.users =
      All-imp (λ u. u.id < db.next_user) (λ u. (u.id == v.id) ≡ false) db.users
        (λ u p. ground arith) valid.users.below in
    let k =
      delete_where-update_where (λ u. u.id == v.id) (λ u. record u { traffic_quota_gb = gb })
        db.users v old (ground arith) (ground arith) in
    let d = nothing_else db v.id (λ x. x.user_id) db.domains e valid valid.domains.owners in
    let s = nothing_else db v.id (λ x. x.user_id) db.sessions e valid valid.sessions.owners in
    let t = nothing_else db v.id (λ x. x.user_id) db.traffic e valid valid.traffic.owners in
    elim (Bool-cases (ltb 0 gb)) [
      | inl b ↦
          rw b (record { same_users = k.1; same_domains = d; same_sessions = s; same_traffic = t })
      | inr b ↦
          rw b (record { same_users = k.0; same_domains = d; same_sessions = s; same_traffic = t })
    ]

pub stored :
    (db : Db) (v : User) (gb : ℕ)
    → v.id ≡ db.next_user
    → v.traffic_quota_gb ≡ 0
    → has_row (clashes v) db.users ≡ false
    → IsValid db
    → get_user_by_name (with_quota (inserted db v) v.id gb) v.name
      ≡ Db.ok (record v { traffic_quota_gb = gb })
unfolding get_user_by_name update_traffic_quota
stored db v gb e z n valid =
    let free : All (λ x. text_eq x.name v.name ≡ false) db.users =
      All-imp (λ x. clashes v x ≡ false) (λ x. text_eq x.name v.name ≡ false) db.users
        (λ x p. ground (arith, text_eq_sym v.name x.name)) (All-has_row (clashes v) db.users n) in
    let old : All (λ u. (u.id == v.id) ≡ false) db.users =
      All-imp (λ u. u.id < db.next_user) (λ u. (u.id == v.id) ≡ false) db.users
        (λ u p. ground arith) valid.users.below in
    let found : (w : User)
        → w.name ≡ v.name
        → first_where (λ x. text_eq x.name v.name) (db.users ++ w ∷ []) ≡ some w =
      λ w q.
        first_where-snoc (λ x. text_eq x.name v.name) db.users w free
          (rw q (text_eq_refl v.name)) in
    let k =
      delete_where-update_where (λ u. u.id == v.id) (λ u. record u { traffic_quota_gb = gb })
        db.users v old (ground arith) (ground arith) in
    elim (Bool-cases (ltb 0 gb)) [
      | inl b ↦ rw (b, k.2) (ap or_no_rows (found (record v { traffic_quota_gb = gb }) refl))
      | inr b ↦ rw (b, found v refl) (ground arith)
    ]
