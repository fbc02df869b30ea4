-- ===== src/Web/AdminSessions/Access.antt =====
-- Which admin tokens are valid, and when.
use lxc_hosting.Base.{
  ℕ, ◌≤◌, ◌≡◌, ◌≢◌, ◌∙◌, Bool, true, some, Map, ◌<◌, false, not, leb, if◌then◌else◌, Text, text_eq,
  text_eq_iff, text_eq_refl, get, put, length, arith, Keys, get-put, get-delete_where,
  get-delete_absent, Bool-cases, Option-cases, inl, inr,
}
use lxc_hosting.Std.Int64.{min_negative, int_lt}
use lxc_hosting.Std.Time.{days_later}
use lxc_hosting.Web.AdminSessions.{SessionStore, prune_locked, create, valid, clear_except}

abbrev pub is_valid : SessionStore → Text → ℕ → Bool
is_valid s token now = (valid s token now).0

-- A token is valid until the expiry that it was made with, and never later.
pub create-valid :
    (s : SessionStore) (days : ℕ) (token : Text) (now later : ℕ)
    → is_valid (create s days token now) token later ≡ not (int_lt (days_later now days) later)
unfolding create valid
create-valid s days token now later = ground (
  arith,
  get-put token token (days_later now days) s.sessions,
  get-put token token (days_later now days) (prune_locked s now).sessions,
  text_eq_refl token,
)

-- what has expired stays expired
later_too :
    (exp now later : ℕ)
    → now ≤ later
    → later < min_negative
    → int_lt exp now ≡ true
    → int_lt exp later ≡ true
unfolding int_lt
later_too exp now later h b e = ground arith

pruned_valid :
    (s : SessionStore) (now later : ℕ) (other : Text)
    → Keys s.sessions
    → now ≤ later
    → later < min_negative
    → is_valid (prune_locked s now) other later ≡ is_valid s other later
unfolding prune_locked valid
pruned_valid s now later other u h b = elim (Option-cases (get other s.sessions)) [
  | inl e ↦
      ground (arith, e, get-delete_absent (λ (x : Text × ℕ). int_lt x.1 now) other s.sessions e)
  | inr (exp, e) ↦ ground (
    arith,
    e,
    later_too exp now later h b,
    get-delete_where (λ (x : Text × ℕ). int_lt x.1 now) other exp s.sessions u e,
  )
]

put_valid :
    (s : SessionStore) (token other : Text) (exp later : ℕ)
    → other ≢ token
    → is_valid (record s { sessions = put token exp s.sessions }) other later
      ≡ is_valid s other later
unfolding valid
put_valid s token other exp later n =
    ground (arith, get-put token other exp s.sessions, text_eq_iff token other)

stored : (token : Text) (exp : ℕ) (m : Map ℕ) → get token (put token exp m) ≡ some exp
stored token exp m = ground (arith, get-put token token exp m, text_eq_refl token)

-- Making a session logs nobody else out, and the new session is stored with its expiry, also in a
-- store that holds `max` sessions or more: only expired ones are removed then, so that `max` does not
-- bound the number of sessions.
pub create-keeps :
    (s : SessionStore) (days : ℕ) (token other : Text) (now later : ℕ)
    → Keys s.sessions
    → now ≤ later
    → later < min_negative
    → other ≢ token
    → (is_valid (create s days token now) other later ≡ is_valid s other later)
      × (get token (create s days token now).sessions ≡ some (days_later now days))
unfolding create
create-keeps s days token other now later u h b n =
    elim (Bool-cases (leb s.max (length s.sessions))) [
      | inl full ↦ rw full (
        put_valid (prune_locked s now) token other (days_later now days) later n
            ∙ pruned_valid s now later other u h b,
        stored token (days_later now days) (prune_locked s now).sessions,
      )
      | inr room ↦ rw room (
        put_valid s token other (days_later now days) later n,
        stored token (days_later now days) s.sessions,
      )
    ]

-- After a password change exactly the session that made it is left.
pub clear_except-valid :
    (s : SessionStore) (token other : Text) (now : ℕ)
    → Keys s.sessions
    → is_valid (clear_except s token) other now
      ≡ (if text_eq other token then is_valid s other now else false)
unfolding clear_except valid
clear_except-valid s token other now u = elim (Option-cases (get other s.sessions)) [
  | inl e ↦
      ground
        (arith, e, get-delete_absent (λ (x : Text × ℕ). not (text_eq x.0 token)) other s.sessions e)
  | inr (exp, e) ↦ ground (
    arith,
    e,
    get-delete_where (λ (x : Text × ℕ). not (text_eq x.0 token)) other exp s.sessions u e,
  )
]
