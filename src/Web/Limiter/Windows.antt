-- ===== src/Web/Limiter/Windows.antt =====
-- How many attempts an address has.
use lxc_hosting.Base.{
  ℕ, ◌+◌, ◌-◌, ◌<◌, ◌≤◌, ◌≡◌, ◌≢◌, ◌∙◌, refl, true, Option, Option-cases, inl, inr, List, [], ◌∷◌,
  if◌then◌else◌, Text, none, some, get, put, length, arith, get-put, text_eq_refl, All, text_eq_iff,
}
use Prim.Native.Nat.{min}
use lxc_hosting.Web.Limiter.{LoginRecord, LoginLimiter, attempt, allowed}

-- the number of attempts at these times that may proceed
unfoldable pub passed : LoginLimiter → Text → List ℕ → ℕ
passed l ip [] = 0
passed l ip (t ∷ ts) = (if (allowed l ip t).0 then 1 else 0) + passed (allowed l ip t).1 ip ts

passed_in_window :
    (ts : List ℕ) (l : LoginLimiter) (ip : Text) (w : LoginRecord)
    → get ip l.by_ip ≡ some w
    → All (λ t. t - w.start < l.win) ts
    → passed l ip ts ≡ min (length ts) (l.limit - w.count)
unfolding passed allowed
passed_in_window [] l ip w e h = omega arith
passed_in_window (t ∷ ts) l ip w e h =
    let w' : LoginRecord = record w { count = w.count + 1 } in
    let l' : LoginLimiter = record l { by_ip = put ip w' l.by_ip } in
    let found : get ip l'.by_ip ≡ some w' =
      get-put ip ip w' l.by_ip ∙ ground (arith, text_eq_refl ip) in
    rw e (ground (arith, passed_in_window ts l' ip w' found h.1))

-- An attempt at a time starts a window: the address has no record, or one that is a window old.
abbrev pub Starts : ℕ → ℕ → Option LoginRecord → Type 0
Starts win now none = Unit
Starts win now (some w) = win ≤ now - w.start

allowed-Starts :
    (l : LoginLimiter) (ip : Text) (now : ℕ) (o : Option LoginRecord)
    → Starts l.win now o
    → attempt l ip now o
      ≡ (true, record l { by_ip = put ip (record { start = now; count = 1 }) l.by_ip })
allowed-Starts l ip now none h = refl
allowed-Starts l ip now (some w) h = ground arith

-- Of the attempts of one address in a window, the first `limit` pass and none of the others, whatever
-- other addresses did before. The window starts with an attempt of an address that has no record, or
-- whose record is at least a window old, however many attempts that one has counted.
pub passed-eq-limit :
    (l : LoginLimiter) (ip : Text) (start : ℕ) (ts : List ℕ)
    → 0 < l.limit
    → Starts l.win start (get ip l.by_ip)
    → All (λ t. t - start < l.win) ts
    → passed l ip (start ∷ ts) ≡ min (length (start ∷ ts)) l.limit
unfolding passed allowed
passed-eq-limit l ip start ts pos e h =
    let w : LoginRecord = record { start = start; count = 1 } in
    let l' : LoginLimiter = record l { by_ip = put ip w l.by_ip } in
    let found : get ip l'.by_ip ≡ some w =
      get-put ip ip w l.by_ip ∙ ground (arith, text_eq_refl ip) in
    rw (allowed-Starts l ip start (get ip l.by_ip) e)
      (ground (arith, passed_in_window ts l' ip w found h))

-- The attempts of one address never count against another one.
pub allowed-other :
    (l : LoginLimiter) (ip other : Text) (now : ℕ)
    → other ≢ ip
    → get other (allowed l ip now).1.by_ip ≡ get other l.by_ip
unfolding allowed
allowed-other l ip other now n = elim (Option-cases (get ip l.by_ip)) [
  | inl e ↦ rw e (
      ground
        (arith, get-put ip other (record { start = now; count = 1 }) l.by_ip, text_eq_iff ip other))
  | inr (w, e) ↦ rw e (
      ground (
        arith,
        get-put ip other (record { start = now; count = 1 }) l.by_ip,
        get-put ip other (record w { count = w.count + 1 }) l.by_ip,
        text_eq_iff ip other,
      ))
]
