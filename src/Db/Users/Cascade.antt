-- ===== src/Db/Users/Cascade.antt =====
-- What is left of a user who is deleted, and what a new row looks like.
use lxc_hosting.Base.{
  ℕ, ◌≡◌, ◌≢◌, ap, false, ◌==◌, Text, text_eq, text_eq_refl, text_eq_sym, first_where-All, has_row,
  arith, first_where-snoc, All-has_row, All, All-imp, first_where-delete_other,
  first_where-delete_where, All-delete_where_true, Bool-cases, inl, inr,
}
use lxc_hosting.Address.Ports.{Ipv4}
use lxc_hosting.Db.{User, Db, ok, err, no_rows}
use lxc_hosting.Db.Users.{
  or_no_rows, insert_user, create_user, clashes, get_user_by_id, get_user_by_name, delete_user,
}

-- A deleted user is not found any more, nothing is left that belongs to the user, and all other
-- users are found as before.
pub delete_user-gone :
    (db : Db) (id : ℕ)
    → (get_user_by_id (delete_user db id) id ≡ err no_rows)
      × All (λ d. (d.user_id == id) ≡ false) (delete_user db id).domains
      × All (λ s. (s.user_id == id) ≡ false) (delete_user db id).sessions
      × All (λ t. (t.user_id == id) ≡ false) (delete_user db id).traffic
      × ((other : ℕ)
          → other ≢ id
          → get_user_by_id (delete_user db id) other ≡ get_user_by_id db other)
unfolding delete_user get_user_by_id
delete_user-gone db id = (
  ap or_no_rows (first_where-delete_where (λ u. u.id == id) db.users),
  All-delete_where_true (λ d. d.user_id == id) db.domains,
  All-delete_where_true (λ s. s.user_id == id) db.sessions,
  All-delete_where_true (λ t. t.user_id == id) db.traffic,
  λ other n. ap or_no_rows (
      first_where-delete_other (λ u. u.id == other) (λ u. u.id == id) db.users
        (λ u p. ground arith)),
)

insert_user-found :
    (db db' : Db) (u w : User)
    → insert_user db u ≡ ok (w, db')
    → (get_user_by_name db u.name ≡ err no_rows) × (get_user_by_name db' u.name ≡ ok w)
unfolding insert_user get_user_by_name
insert_user-found db db' u w h = elim (Bool-cases (has_row (clashes u) db.users)) [
  | inl e ↦ absurd (cc (rw e at h))
  | inr e ↦
      let free : All (λ x. text_eq x.name u.name ≡ false) db.users =
        All-imp (λ x. clashes u x ≡ false) (λ x. text_eq x.name u.name ≡ false) db.users
          (λ x p. ground (arith, text_eq_sym u.name x.name)) (All-has_row (clashes u) db.users e) in
      let found =
        first_where-snoc (λ x. text_eq x.name u.name) db.users u free (text_eq_refl u.name) in
      (
        ground (arith, first_where-All (λ x. text_eq x.name u.name) db.users free),
        ground (arith, e, h, found),
      )
]

-- A name that is inserted was not there before, and is found afterwards with the row that the
-- insertion returned.
pub create_user-found :
    (db db' : Db) (name pass_hash : Text) (ip : Ipv4) (idx ssh_port start_port cpu mem disk : ℕ)
    (now : Text) (u : User)
    → create_user db name pass_hash ip idx ssh_port start_port cpu mem disk now ≡ ok (u, db')
    → (get_user_by_name db name ≡ err no_rows) × (get_user_by_name db' name ≡ ok u)
unfolding create_user
create_user-found db db' name pass_hash ip idx ssh_port start_port cpu mem disk now u h =
    insert_user-found db db' _ u h
