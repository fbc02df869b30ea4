-- ===== src/Db/Sessions/Expiry.antt =====
-- Who is let in by a session token, and for how long.
use lxc_hosting.Base.{
  ℕ, ◌+◌, ◌*◌, ◌≡◌, ap, ◌∙◌, ◌&&◌, not, ◌∷◌, Bool, true, ltb, leb, ◌≤◌, ◌<◌, ◌==◌, if◌then◌else◌,
  Text, text_eq, text_eq_iff, text_eq_refl, Option, none, some, first_where, has_row, arith,
  first_where-snoc, All-has_row, first_where-true, first_where-delete_unique, Bool-cases, inl, inr,
}
use lxc_hosting.Std.Int64.{min_negative, int_lt, int_lt-ltb}
use lxc_hosting.Std.Time.{day_seconds, days_later, max_days, days_later-exact, days_later-passed}
use lxc_hosting.Db.{Session, Db, ok, err, session_expired}
use lxc_hosting.Db.Users.{get_user_by_id}
use lxc_hosting.Db.Valid.{IsValid}
use lxc_hosting.Db.Sessions.{
  create_session, delete_session, session_user, delete_sessions_for_user_except,
}

-- the row of a token
abbrev pub find : Db → Text → Option Session
find db token = first_where (λ s. text_eq s.token token) db.sessions

created :
    (db db' : Db) (user_id days : ℕ) (token : Text) (now later : ℕ) (s : Session)
    → create_session db user_id days token now ≡ ok (s, db')
    → session_user db' token later ≡ (
        if int_lt (days_later now days) later
        then (err session_expired, delete_session db' token)
        else (get_user_by_id db' user_id, db'))
unfolding create_session session_user
created db db' user_id days token now later s h =
    elim (Bool-cases (has_row (λ x. text_eq x.token token) db.sessions)) [
      | inl e ↦ absurd (cc (rw e at h))
      | inr e ↦ elim (Bool-cases (has_row (λ u. u.id == user_id) db.users)) [
        | inr f ↦ absurd (cc (rw (e, f) at h))
        | inl f ↦
            let row : Session = record {
              token = token;
              user_id = user_id;
              expires_at = days_later now days;
            } in
            let found =
              first_where-snoc (λ x. text_eq x.token token) db.sessions row
                (All-has_row (λ x. text_eq x.token token) db.sessions e) (text_eq_refl token) in
            ground (arith, e, f, h, found)
      ]
    ]

expires :
    (now days later : ℕ)
    → days ≤ 2 * max_days + 1
    → now ≤ later
    → later < min_negative
    → now + max_days * day_seconds < min_negative
    → int_lt (days_later now days) later
      ≡ (if leb days max_days then ltb (now + days * day_seconds) later else true)
expires now days later d l b k = elim (Bool-cases (leb days max_days)) [
  | inl e ↦
      rw (e, days_later-exact now days (ground arith) (ground arith))
        (int_lt-ltb (now + days * day_seconds) later (ground arith) b)
  | inr e ↦ rw e (days_later-passed now days later (ground arith) d l b)
]

-- A token that was just issued for at most 106751 days is its user's until that many days have
-- passed, and from then on it is refused as expired and deleted. One that was issued for 106752 to
-- 213503 days is refused and deleted at once, since its lifetime wraps. No time is beyond an int64.
pub session_user-create :
    (db db' : Db) (user_id days : ℕ) (token : Text) (now later : ℕ) (s : Session)
    → create_session db user_id days token now ≡ ok (s, db')
    → days ≤ 2 * max_days + 1
    → now ≤ later
    → later < min_negative
    → now + max_days * day_seconds < min_negative
    → session_user db' token later ≡ (
        if if leb days max_days then ltb (now + days * day_seconds) later else true
        then (err session_expired, delete_session db' token)
        else (get_user_by_id db' user_id, db'))
session_user-create db db' user_id days token now later s h d l b k =
    created db db' user_id days token now later s h
    ∙ ap
        (λ (e : Bool).
          if e
          then (err session_expired, delete_session db' token)
          else (get_user_by_id db' user_id, db'))
        (expires now days later d l b k)

-- Invalidating a user's sessions but one refuses each of the user's other tokens, and leaves the
-- kept one and those of the other users as they are.
pub session_kept :
    (db : Db) (user_id : ℕ) (c : ℕ) (keep token : Text) (s : Session)
    → IsValid db
    → find db token ≡ some s
    → find (delete_sessions_for_user_except db user_id (c ∷ keep)) token
      ≡ (if s.user_id == user_id && not (text_eq token (c ∷ keep)) then none else some s)
unfolding delete_sessions_for_user_except
session_kept db user_id c keep token s v h =
    let found = first_where-true (λ x. text_eq x.token token) db.sessions h in
    let same = (text_eq_iff s.token token).0 found in
    first_where-delete_unique (λ x. x.token) (λ x. text_eq x.token token)
      (λ x. x.user_id == user_id && not (text_eq x.token (c ∷ keep))) token db.sessions s
      (λ x t. (text_eq_iff x.token token).0 t) v.sessions.tokens h
    ∙ ap (λ t. if s.user_id == user_id && not (text_eq t (c ∷ keep)) then none else some s) same
