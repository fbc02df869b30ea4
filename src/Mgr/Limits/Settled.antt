-- ===== src/Mgr/Limits/Settled.antt =====
-- The marks and the NIC limits around EnforceTrafficLimits (src/internal/mgr/traffic.go).
use lxc_hosting.Base.{
  ◌≡◌, ◌≢◌, refl, Bool, false, List, [], ◌∷◌, Text, some, Option, All, arith, has_row, delete_where,
}
use lxc_hosting.Db.{User, Db}
use lxc_hosting.Db.Users.{list_users}
use lxc_hosting.Host.{Instance, Calls}
use lxc_hosting.Host.Laws.{IsLawful}
use lxc_hosting.Mgr.Limits.Rates.{rates_for, live_rates}
use lxc_hosting.Host.Lx.{ensure_nic_rate_limit}
use lxc_hosting.Mgr.{State, Done, ok, err, call_failed}
use lxc_hosting.Mgr.Limits.{is_in, drop_name, is_throttled, over_quota}

pub is_in-drop_same : (n : Text) (names : List Text) → is_in (drop_name names n) n ≡ false
unfolding is_in drop_name has_row delete_where
is_in-drop_same n [] = refl
is_in-drop_same n (k ∷ names) = ground (arith, is_in-drop_same n names)

-- the entry of the user is right, and the others are as before
abbrev Settles : Bool → List Text → Text → List Text → Type 0
Settles over names name names' =
    (is_in names' name ≡ over) × ((n : Text) → n ≢ name → is_in names' n ≡ is_in names n)

module _ {S : Type 0} (h : Calls S) where
  -- a request for a limit fails, in some state of the host
  abbrev pub RateFails : Type 0
  RateFails = (n : Text) × (rate : Text) × (s : S) × ((ensure_nic_rate_limit h n rate s).0 ≡ false)

module _ {S : Type 0} (h : Calls S) (view : S → Text → Option Instance) (w : IsLawful h view) where
  -- LXD limits the NIC of the user as the map of marks says.
  abbrev pub IsMarked : S → List Text → User → Type 0
  IsMarked s names u = live_rates h view w s u.name ≡ some (rates_for (is_in names u.name))

  -- what a pass promises: the marks and the limits as the quotas want them, or the reason of the
  -- error
  abbrev pub Ended : State S → Done → State S → Type 0
  Ended m (ok _) m' =
      All (λ u. is_throttled m' u.name ≡ over_quota m.db u) (list_users m.db)
      × All (λ u. live_rates h view w m'.sys u.name ≡ some (rates_for (over_quota m.db u)))
          (list_users m.db)
  Ended m (err e) m' = (e ≡ call_failed) × RateFails h
