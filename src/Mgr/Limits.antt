-- ===== src/Mgr/Limits.antt =====
-- EnforceTrafficLimits and IsThrottled (src/internal/mgr/traffic.go).
pub mod Settled
pub mod Rates
use lxc_hosting.Base.{
  ℕ, ◌+◌, ◌%◌, Bool, true, false, not, ◌&&◌, List, [], ◌∷◌, if◌then◌else◌, Text, text_eq, codes,
  Option, none, some, delete_where, has_row,
}
use lxc_hosting.Std.Int64.{modulus}
use lxc_hosting.Quota.Throttle.{should_throttle}
use lxc_hosting.Db.{User, Db, DbResult, Traffic}
use lxc_hosting.Db
use lxc_hosting.Db.Users.{list_users}
use lxc_hosting.Db.Counters.{get_traffic}
use lxc_hosting.Host.{Calls, on_success}
use lxc_hosting.Host.Lx.{ensure_nic_rate_limit, nic_rate_limit}
use lxc_hosting.Mgr.{State, MgrError, Outcome, Done, ok, err, call_failed}

abbrev pub throttle_rate : Text
throttle_rate = codes "1Mbit"

-- the key is in the map `throttled`
unfoldable pub is_in : List Text → Text → Bool
is_in names name = has_row (λ n. text_eq n name) names

unfoldable pub drop_name : List Text → Text → List Text
drop_name names name = delete_where (λ n. text_eq n name) names

unfoldable pub is_throttled : {S : Type 0} → State S → Text → Bool
unfolding is_in
is_throttled m name = elim m.throttled [ none ↦ false | some names ↦ is_in names name ]

abbrev pub total : DbResult Traffic → ℕ
total (Db.err e) = 0
total (Db.ok t) = (t.upload + t.download) % modulus

-- TrafficFor and shouldThrottle
unfoldable pub over_quota : Db → User → Bool
over_quota db u = should_throttle (total (get_traffic db u.id)) u.traffic_quota_gb

module _ {S : Type 0} (h : Calls S) where
  abbrev primed : Text → List Text → Option Text × S → List Text × S
  primed name names (none, s) = (names, s)
  primed name names (some [], s) = (names, s)
  primed name names (some (c ∷ rate), s) = (name ∷ names, s)

  -- The first pass after a restart: which containers carry a limit.
  unfoldable pub prime : List User → List Text → S → List Text × S
  prime [] names s = (names, s)
  prime (u ∷ us) names s =
      let p = primed u.name names (nic_rate_limit h u.name s) in prime us p.0 p.1

  -- One round of the loop: whether there was no error, the new map, and the host.
  abbrev pub enforced : Bool → List Text → User → Bool → S → Bool × List Text × S
  enforced true names u false s =
      on_success (ensure_nic_rate_limit h u.name throttle_rate s) (λ s'. (true, u.name ∷ names, s'))
        (λ s'. (false, names, s'))
  enforced false names u true s =
      on_success (ensure_nic_rate_limit h u.name [] s) (λ s'. (true, drop_name names u.name, s'))
        (λ s'. (false, names, s'))
  enforced over names u throttled s = (true, names, s)

  abbrev pub enforce_one : Db → List Text → User → S → Bool × List Text × S
  enforce_one db names u s = enforced (over_quota db u) names u (is_in names u.name) s

  -- The loop over the users; an error does not stop it.
  unfoldable pub enforce_all : Db → List User → List Text → S → Bool × List Text × S
  enforce_all db [] names s = (true, names, s)
  enforce_all db (u ∷ us) names s =
      let (fine, names1, s1) = enforce_one db names u s in
      let (rest, names2, s2) = enforce_all db us names1 s1 in (fine && rest, names2, s2)

  abbrev pub start_names : List User → Option (List Text) → S → List Text × S
  start_names us (some names) s = (names, s)
  start_names us none s = prime us [] s

  abbrev pub enforced_state : State S → Bool × List Text × S → Done × State S
  enforced_state m (true, names, s) = (ok tt, record m { sys = s; throttled = some names })
  enforced_state m (false, names, s) =
      (err call_failed, record m { sys = s; throttled = some names })

  unfoldable pub enforce_traffic_limits : State S → Done × State S
  unfolding enforce_all prime
  enforce_traffic_limits m =
      let us = list_users m.db in
      let (names, s) = start_names us m.throttled m.sys in
      enforced_state m (enforce_all m.db us names s)
