-- ===== src/Web/Limiter.antt =====
-- The login limiter of the panels (src/internal/panel/panel.go, src/internal/admin/admin.go).
pub mod Windows
use lxc_hosting.Base.{
  ℕ, ◌+◌, ◌-◌, ◌≤◌, Bool, true, false, List, [], ltb, leb, if◌then◌else◌, Text, Option, none, some,
  Map, get, put, delete_where, length,
}

abbrev pub login_limit : ℕ
login_limit = 5

-- seconds
abbrev pub login_window : ℕ
login_window = 60

abbrev pub limiter_max_ips : ℕ
limiter_max_ips = 10000

pub record LoginRecord : Type 0 where
  pub start : ℕ
  pub count : ℕ

pub record LoginLimiter : Type 0 where
  pub by_ip : Map LoginRecord
  pub limit : ℕ
  pub win : ℕ

abbrev pub new_login_limiter : LoginLimiter
new_login_limiter = record { by_ip = []; limit = login_limit; win = login_window }

abbrev first_attempt : LoginLimiter → Text → ℕ → Bool × LoginLimiter
first_attempt l ip now =
    (true, record l { by_ip = put ip (record { start = now; count = 1 }) l.by_ip })

abbrev pub attempt : LoginLimiter → Text → ℕ → Option LoginRecord → Bool × LoginLimiter
attempt l ip now none = first_attempt l ip now
attempt l ip now (some w) = if leb l.win (now - w.start) then first_attempt l ip now else (
  (if ltb l.limit (w.count + 1) then false else true),
  record l { by_ip = put ip (record w { count = w.count + 1 }) l.by_ip },
)

unfoldable pub allowed : LoginLimiter → Text → ℕ → Bool × LoginLimiter
allowed l ip now = attempt l ip now (get ip l.by_ip)

unfoldable pub prune : LoginLimiter → ℕ → LoginLimiter
prune l now = if ltb (length l.by_ip) limiter_max_ips then l else record l {
  by_ip = delete_where (λ (e : Text × LoginRecord). leb l.win (now - e.1.start)) l.by_ip;
}
