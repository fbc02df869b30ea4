-- ===== src/Web/AdminSessions.antt =====
-- The admin panel's sessions in memory (src/internal/admin/sessions.go). Tokens and times are
-- arguments; an expiry is the bit pattern of an int64 that counts seconds.
pub mod Access
use lxc_hosting.Base.{
  ℕ, ◌+◌, ◌*◌, ◌≤◌, Bool, true, false, not, List, [], ltb, leb, if◌then◌else◌, Text, text_eq,
  Option, none, some, Map, get, put, remove, delete_where, length,
}
use lxc_hosting.Std.Int64.{int_lt}
use lxc_hosting.Std.Time.{days_later}

pub record SessionStore : Type 0 where
  pub sessions : Map ℕ
  pub max : ℕ

abbrev pub new_session_store : ℕ → SessionStore
new_session_store max = record { sessions = []; max = max }

unfoldable pub prune_locked : SessionStore → ℕ → SessionStore
prune_locked s now = record s {
  sessions = delete_where (λ (e : Text × ℕ). int_lt e.1 now) s.sessions;
}

unfoldable pub create : SessionStore → ℕ → Text → ℕ → SessionStore
unfolding prune_locked
create s days token now =
    let pruned = if leb s.max (length s.sessions) then prune_locked s now else s in
    record pruned { sessions = put token (days_later now days) pruned.sessions }

abbrev check_expiry : SessionStore → Text → ℕ → Option ℕ → Bool × SessionStore
check_expiry s token now none = (false, s)
check_expiry s token now (some exp) =
    if int_lt exp now then (false, record s { sessions = remove token s.sessions }) else (true, s)

unfoldable pub valid : SessionStore → Text → ℕ → Bool × SessionStore
valid s token now = check_expiry s token now (get token s.sessions)

unfoldable pub delete : SessionStore → Text → SessionStore
delete s token = record s { sessions = remove token s.sessions }

unfoldable pub clear_except : SessionStore → Text → SessionStore
clear_except s token = record s {
  sessions = delete_where (λ (e : Text × ℕ). not (text_eq e.0 token)) s.sessions;
}
