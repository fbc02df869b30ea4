-- ===== src/Web/Tests.antt =====
-- Sessions, logins and requests.
use Prim.Native.Nat.{min}
use lxc_hosting.Base.{
  get, some, ℕ, ◌≡◌, ◌↔◌, ◌⊎◌, refl, true, false, not, List, [], ◌∷◌, ◌++◌, if◌then◌else◌, Text,
  codes, text_eq, get, length, arith,
}
use lxc_hosting.Web.AdminSessions.{SessionStore, create, clear_except}
use lxc_hosting.Web.AdminSessions.Access.{is_valid, create-valid, create-keeps, clear_except-valid}
use lxc_hosting.Std.Int64.{int_lt}
use lxc_hosting.Std.Time.{days_later}
use lxc_hosting.Web.Limiter.{LoginLimiter, new_login_limiter, login_limit}
use lxc_hosting.Web.Limiter.Windows.{passed, passed-eq-limit}
use lxc_hosting.Web.Requests.{Request, strip_prefix, cut_prefix}
use lxc_hosting.Web.Requests
use lxc_hosting.Web.Requests.Origins.{allowed-origin, strip_prefix-some}

abbrev store : SessionStore
store = record { sessions = (codes "a", 500) ∷ (codes "b", 90000) ∷ []; max = 2 }

create-valid_example :
    is_valid (create store 1 (codes "c") 1000) (codes "c") 87400
    ≡ not (int_lt (days_later 1000 1) 87400)
create-valid_example = create-valid store 1 (codes "c") 1000 87400

create-keeps_example :
    (is_valid (create store 1 (codes "c") 1000) (codes "b") 2000 ≡ is_valid store (codes "b") 2000)
    × (get (codes "c") (create store 1 (codes "c") 1000).sessions ≡ some (days_later 1000 1))
create-keeps_example =
    create-keeps store 1 (codes "c") (codes "b") 1000 2000 (ground arith) (omega arith)
      (omega arith) (ground arith)

clear_except-valid_example :
    is_valid (clear_except store (codes "b")) (codes "a") 100
    ≡ (if text_eq (codes "a") (codes "b") then is_valid store (codes "a") 100 else false)
clear_except-valid_example = clear_except-valid store (codes "b") (codes "a") 100 (ground arith)

abbrev times : List ℕ
times = 101 ∷ 102 ∷ 103 ∷ 110 ∷ 120 ∷ 150 ∷ []

-- an address that used up a window that is over
abbrev used_up : LoginLimiter
used_up = record new_login_limiter {
  by_ip = (codes "192.0.2.1", record { start = 30; count = 9 }) ∷ [];
}

passed-eq-limit_example :
    passed used_up (codes "192.0.2.1") (100 ∷ times) ≡ min (length (100 ∷ times)) login_limit
unfolding get
passed-eq-limit_example =
    passed-eq-limit used_up (codes "192.0.2.1") 100 times (omega arith) (ground arith) (omega arith)

abbrev post : Request
post = record {
  method = codes "POST";
  sec_fetch_site = [];
  origin = codes "https://panel";
  host = codes "panel";
}

allowed-origin_example : (Requests.allowed post ≡ true) ↔ (codes "panel" ≡ codes "panel")
allowed-origin_example =
    allowed-origin post (codes "https") (codes "panel") refl refl refl (ground arith) (ground arith)

strip_prefix-some_example :
    ((codes "/s3cret/login" ≡ codes "/s3cret") × (codes "/login" ≡ b'/' ∷ []))
    ⊎ ((tail : Text) × (codes "/login" ≡ b'/' ∷ tail)
        × (codes "/s3cret/login" ≡ codes "/s3cret" ++ codes "/login"))
unfolding strip_prefix cut_prefix text_eq
strip_prefix-some_example =
    strip_prefix-some (codes "/s3cret/login") (codes "/s3cret") (codes "/login") refl
