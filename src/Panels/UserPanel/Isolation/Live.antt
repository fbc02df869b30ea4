-- ===== src/Panels/UserPanel/Isolation/Live.antt =====
-- The user of a live session in a valid database (src/internal/db/session.go).
use lxc_hosting.Base.{
  ℕ, ◌≡◌, ◌≢◌, refl, ap, subst, Bool, List, [], ◌∷◌, ◌==◌, if◌then◌else◌, Text, text_eq,
  text_eq_iff, text_eq_refl, Option, none, some, Unique, first_where, All-first_where, Bool-cases,
  inl, inr, arith,
}
use lxc_hosting.Db.{User, Domain, Session, Db, DbResult}
use lxc_hosting.Db
use lxc_hosting.Db.Users.{get_user_by_name, get_user_by_id, or_no_rows, or_no_rows-ok}
use lxc_hosting.Std.Int64.{int_lt}
use lxc_hosting.Db.Sessions.{session_user, check_expiry}
use lxc_hosting.Db.Valid.{IsValid}
use lxc_hosting.Mgr.Others.Flags.{Ready}

found_by_name :
    (q : User → Bool) (us : List User) (u : User)
    → Unique (λ (v : User). v.name) us
    → first_where q us ≡ some u
    → first_where (λ (v : User). text_eq v.name u.name) us ≡ some u
unfolding first_where
found_by_name q [] u n h = absurd (cc h)
found_by_name q (x ∷ us) u n h = elim (Bool-cases (q x)) [
  | inl e ↦
      let same : x ≡ u = ground (arith, e, h) in
      subst
        (λ (v : User).
          (if text_eq x.name v.name
            then some x
            else first_where (λ (w : User). text_eq w.name v.name) us)
          ≡ some v)
        same (rw (text_eq_refl x.name) refl)
  | inr e ↦
      let found : first_where q us ≡ some u = ground (arith, e, h) in
      let other : x.name ≢ u.name =
        All-first_where (λ (v : User). x.name ≢ v.name) q us n.0 found in
      elim (Bool-cases (text_eq x.name u.name)) [
        | inl t ↦ absurd (other ((text_eq_iff x.name u.name).0 t))
        | inr t ↦ rw t (found_by_name q us u n.1 found)
      ]
]

check_expiry-ok :
    (db db' : Db) (token : Text) (now : ℕ) (u : User) (s : Option Session)
    → check_expiry db token now s ≡ (Db.ok u, db')
    → (db ≡ db') × ((id : ℕ) × (get_user_by_id db id ≡ Db.ok u))
check_expiry-ok db db' token now u none q = absurd (cc (ap (λ z. z.0) q))
check_expiry-ok db db' token now u (some s) q = elim (Bool-cases (int_lt s.expires_at now)) [
  | inl e ↦ absurd (cc (ap (λ z. z.0) (rw e at q)))
  | inr e ↦ let r = rw e at q in (ap (λ z. z.1) r, (s.user_id, ap (λ z. z.0) r))
]

by_id-Ready :
    (db : Db) (id : ℕ) (u : User) → IsValid db → get_user_by_id db id ≡ Db.ok u → Ready u db
unfolding get_user_by_id get_user_by_name
by_id-Ready db id u v q = record {
  owns = ap or_no_rows (
      found_by_name (λ (w : User). w.id == id) db.users u v.users.names
        (or_no_rows-ok (first_where (λ (w : User). w.id == id) db.users) u q));
  ids = v.domains.ids;
}

-- The user of a live session is ready in the database behind the check.
pub session_user-Ready :
    (db db' : Db) (token : Text) (now : ℕ) (u : User)
    → IsValid db
    → session_user db token now ≡ (Db.ok u, db')
    → (db ≡ db') × Ready u db
unfolding session_user
session_user-Ready db db' token now u v q =
    let r = check_expiry-ok db db' token now u _ q in (r.0, by_id-Ready db r.1.0 u v r.1.1)
