-- ===== src/Mgr/Limits/Rates.antt =====
-- The NIC limits that LXD has around EnforceTrafficLimits (src/internal/mgr/traffic.go;
-- src/internal/lx/lx.go, EnsureNicRateLimit).
use lxc_hosting.Base.{
  ◌≡◌, ◌≢◌, ◌∙◌, refl, ap, Bool, true, false, List, [], ◌∷◌, Text, text_eq, codes, Option, none,
  some, Map, get, put, remove, get-put, get-remove, if◌then◌else◌,
}
use lxc_hosting.Db.{User}
use lxc_hosting.Host.{Instance, Lookup, found, not_found, unreachable, Calls, on_success}
use lxc_hosting.Host.Lx.{
  value_or_empty, with_rate, on_device, on_found, patch_device, ensure_nic_rate_limit,
}
use lxc_hosting.Host.Laws.{IsLawful}
use lxc_hosting.Mgr.Limits.{drop_name, enforced, throttle_rate}

-- the limits of the NIC in both directions, empty where there is none
pub record Rates : Type 0 where
  pub egress : Text
  pub ingress : Text

abbrev pub both : Text → Rates
both rate = record { egress = rate; ingress = rate }

abbrev pub device_rates : Map Text → Rates
device_rates eth0 = record {
  egress = value_or_empty (get (codes "limits.egress") eth0);
  ingress = value_or_empty (get (codes "limits.ingress") eth0);
}

abbrev pub rates_of : Option (Map Text) → Option Rates
rates_of none = none
rates_of (some eth0) = some (device_rates eth0)

abbrev pub nic_rates : Option Instance → Option Rates
nic_rates none = none
nic_rates (some it) = rates_of (get (codes "eth0") it.devices)

-- limited to the rate of the program, or not at all
abbrev pub rates_for : Bool → Rates
rates_for true = both throttle_rate
rates_for false = both []

rates_eq :
    (a b c d : Text)
    → a ≡ c
    → b ≡ d
    → ◌≡◌ {A = Rates} (record { egress = a; ingress = b }) (record { egress = c; ingress = d })
rates_eq a b c d p q = rw (p, q) refl

put-eth0 :
    (x : Map Text) (ds : Map (Map Text)) → get (codes "eth0") (put (codes "eth0") x ds) ≡ some x
unfolding text_eq
put-eth0 x ds = get-put (codes "eth0") (codes "eth0") x ds

module _ {S : Type 0} (h : Calls S) (view : S → Text → Option Instance) (w : IsLawful h view) where
  with_rate-both :
      (rate : Text) (eth0 : Map Text) → device_rates (with_rate h rate eth0) ≡ both rate
  unfolding with_rate text_eq
  with_rate-both [] eth0 =
      let in0 = codes "limits.ingress" in
      let out0 = codes "limits.egress" in
      rates_eq _ _ _ _ (ap value_or_empty (get-remove out0 out0 (remove in0 eth0)))
        (ap value_or_empty (get-remove out0 in0 (remove in0 eth0) ∙ get-remove in0 in0 eth0))
  with_rate-both (c ∷ rate) eth0 =
      let in0 = codes "limits.ingress" in
      let out0 = codes "limits.egress" in
      let v = c ∷ rate in
      rates_eq _ _ _ _ (ap value_or_empty (get-put out0 out0 v (put in0 v eth0)))
        (ap value_or_empty (get-put out0 in0 v (put in0 v eth0) ∙ get-put in0 in0 v eth0))

  -- Success sets the limits of the instance, and no other instance changes.
  pub record SetsRate (n : Text) (rate : Text) (s : S) (r : Bool × S) : Type 0 where
    done : r.0 ≡ true → nic_rates (view r.1 n) ≡ some (both rate)
    others : (m : Text) → m ≢ n → view r.1 m ≡ view s m

  found-SetsRate :
      (n rate : Text) (s : S) (it : Instance) (s1 : S) (o : Option (Map Text))
      → ((m : Text) → view s1 m ≡ view s m)
      → SetsRate n rate s (
          on_found h o it s1
            (λ it eth0. patch_device h n (codes "eth0") it (with_rate h rate eth0))
            (λ s'. (false, s')))
  found-SetsRate n rate s it s1 none same = record {
    done = λ q. absurd (cc q);
    others = λ m k. same m;
  }
  found-SetsRate n rate s it s1 (some eth0) same =
      let d = put (codes "eth0") (with_rate h rate eth0) it.devices in
      record {
        done = λ q.
            (let (j, before, after) = w.devices_done n d s1 q in
              ap nic_rates after
              ∙ ap rates_of (put-eth0 (with_rate h rate eth0) it.devices)
              ∙ ap (λ x. some x) (with_rate-both rate eth0));
        others = λ m k. w.devices_other n d s1 m k ∙ same m;
      }

  answered-SetsRate :
      (n rate : Text) (s : S) (r : Lookup × S)
      → ((m : Text) → view r.1 m ≡ view s m)
      → SetsRate n rate s (
          on_device h
            (codes "eth0")
            r
            (λ it eth0. patch_device h n (codes "eth0") it (with_rate h rate eth0))
            (λ s'. (false, s')))
  answered-SetsRate n rate s (not_found, s1) same = record {
    done = λ q. absurd (cc q);
    others = λ m k. same m;
  }
  answered-SetsRate n rate s (unreachable, s1) same = record {
    done = λ q. absurd (cc q);
    others = λ m k. same m;
  }
  answered-SetsRate n rate s (found it, s1) same =
      found-SetsRate n rate s it s1 (get (codes "eth0") it.devices) same

  ensure-SetsRate : (n rate : Text) (s : S) → SetsRate n rate s (ensure_nic_rate_limit h n rate s)
  unfolding ensure_nic_rate_limit
  ensure-SetsRate n rate s = answered-SetsRate n rate s (h.get_instance n s) (λ m. w.get_same n m s)

  abbrev pub live_rates : S → Text → Option Rates
  live_rates s n = nic_rates (view s n)

  -- One round without an error leaves the user limited as the quota wants, from limits that are as
  -- the map says, and other instances as they are.
  abbrev pub Enforced : Bool → User → S → Bool × List Text × S → Type 0
  Enforced over u s r =
      (r.0 ≡ true → live_rates r.2 u.name ≡ some (rates_for over))
      × ((m : Text) → m ≢ u.name → view r.2 m ≡ view s m)

  set-Enforced :
      (over : Bool) (u : User) (s : S) (names names' : List Text) (c : Bool × S)
      → SetsRate u.name (if over then throttle_rate else []) s c
      → Enforced over u s (on_success c (λ s'. (true, names', s')) (λ s'. (false, names, s')))
  set-Enforced true u s names names' (true, s1) k = (λ q. k.done refl, k.others)
  set-Enforced false u s names names' (true, s1) k = (λ q. k.done refl, k.others)
  set-Enforced over u s names names' (false, s1) k = (λ q. absurd (cc q), k.others)

  pub enforced-Enforced :
      (over : Bool) (names : List Text) (u : User) (throttled : Bool) (s : S)
      → live_rates s u.name ≡ some (rates_for throttled)
      → Enforced over u s (enforced h over names u throttled s)
  enforced-Enforced true names u false s e =
      set-Enforced true u s names (u.name ∷ names) (ensure_nic_rate_limit h u.name throttle_rate s)
        (ensure-SetsRate u.name throttle_rate s)
  enforced-Enforced false names u true s e =
      set-Enforced false u s names (drop_name names u.name) (ensure_nic_rate_limit h u.name [] s)
        (ensure-SetsRate u.name [] s)
  enforced-Enforced true names u true s e = (λ q. e, λ m k. refl)
  enforced-Enforced false names u false s e = (λ q. e, λ m k. refl)
