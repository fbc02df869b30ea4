-- ===== src/Host/Lx.antt =====
-- The client of LXD (src/internal/lx/lx.go) over the calls of the REST API.
use lxc_hosting.Base.{
  ℕ, Bool, true, false, [], ◌∷◌, ◌++◌, if◌then◌else◌, Text, text_eq, codes, Option, none, some, Map,
  get, put, remove,
}
use lxc_hosting.Std.Strconv.{itoa}
use lxc_hosting.Quota.Cpu.{cpu_limit_config}
use lxc_hosting.Host.{Instance, Lookup, found, not_found, unreachable, Calls, on_success}

-- PATCH merges, and an empty value removes its key.
unfoldable pub merge : Map Text → Map Text → Map Text
merge [] config = config
merge ((k, []) ∷ patch) config = merge patch (remove k config)
merge ((k, c ∷ v) ∷ patch) config = merge patch (put k (c ∷ v) config)

unfoldable pub cpu_config : ℕ → Map Text
cpu_config tenths =
    let l = cpu_limit_config tenths in
    (codes "limits.cpu", l.limits_cpu) ∷ (codes "limits.cpu.allowance", l.allowance) ∷ []

abbrev pub value_or_empty : Option Text → Text
value_or_empty none = []
value_or_empty (some v) = v

module _ {S : Type 0} (h : Calls S) where
  unfoldable pub set_cpu : Text → ℕ → S → Bool × S
  set_cpu name tenths = h.patch_config name (cpu_config tenths)

  unfoldable pub set_mem : Text → ℕ → S → Bool × S
  set_mem name mb = h.patch_config name ((codes "limits.memory", itoa mb ++ codes "MiB") ∷ [])

  unfoldable pub set_autostart : Text → Bool → S → Bool × S
  set_autostart name on =
      h.patch_config name
        ((codes "boot.autostart", if on then codes "true" else codes "false") ∷ [])

  abbrev pub on_found {ℓ} :
      {B : Type ℓ} → Option (Map Text) → Instance → S → (Instance → Map Text → S → B) → (S → B) → B
  on_found none it s good bad = bad s
  on_found (some d) it s good bad = good it d s

  -- what is done with a device of an instance; `none` is an instance without it
  abbrev pub on_device {ℓ} :
      {B : Type ℓ} → Text → Lookup × S → (Instance → Map Text → S → B) → (S → B) → B
  on_device dev (not_found, s) good bad = bad s
  on_device dev (unreachable, s) good bad = bad s
  on_device dev (found it, s) good bad = on_found (get dev it.devices) it s good bad

  abbrev pub patch_device : Text → Text → Instance → Map Text → S → Bool × S
  patch_device name dev it d = h.patch_devices name (put dev d it.devices)

  unfoldable pub set_disk : Text → ℕ → S → Bool × S
  set_disk name gb s =
      on_device (codes "root") (h.get_instance name s)
        (λ it root.
          patch_device name (codes "root") it (put (codes "size") (itoa gb ++ codes "GiB") root))
        (λ s'. (false, s'))

  unfoldable pub with_rate : Text → Map Text → Map Text
  with_rate [] eth0 = remove (codes "limits.egress") (remove (codes "limits.ingress") eth0)
  with_rate (c ∷ rate) eth0 =
      put (codes "limits.egress") (c ∷ rate) (put (codes "limits.ingress") (c ∷ rate) eth0)

  unfoldable pub ensure_nic_rate_limit : Text → Text → S → Bool × S
  ensure_nic_rate_limit name rate s =
      on_device (codes "eth0") (h.get_instance name s)
        (λ it eth0. patch_device name (codes "eth0") it (with_rate rate eth0)) (λ s'. (false, s'))

  unfoldable pub rate_of : Map Text → Text
  rate_of eth0 = elim (value_or_empty (get (codes "limits.egress") eth0)) [
    | [] ↦ value_or_empty (get (codes "limits.ingress") eth0)
    | c ∷ r ↦ c ∷ r
  ]

  -- `none` is an error.
  unfoldable pub nic_rate_limit : Text → S → Option Text × S
  nic_rate_limit name s =
      on_device (codes "eth0") (h.get_instance name s) (λ it eth0 s'. (some (rate_of eth0), s'))
        (λ s'. (none, s'))

  abbrev pub start : Text → S → Bool × S
  start name = h.put_state name (codes "start")

  abbrev pub stop : Text → S → Bool × S
  stop name = h.put_state name (codes "stop")

  unfoldable pub restart : Text → S → Bool × S
  restart name s =
      on_success (h.put_state name (codes "restart") s) (h.wait_ready name) (λ s'. (false, s'))

  abbrev delete_found : Text → Lookup × S → Bool × S
  delete_found name (not_found, s) = (true, s)
  delete_found name (unreachable, s) = (false, s)
  delete_found name (found it, s) =
      if text_eq it.status (codes "Stopped")
      then h.delete_instance name s
      else h.delete_instance name (h.put_state name (codes "stop --force") s).1

  unfoldable pub delete_container : Text → S → Bool × S
  delete_container name s = delete_found name (h.get_instance name s)

  abbrev nic_isolation : Map Text
  nic_isolation =
      (codes "security.port_isolation", codes "true")
      ∷ (codes "security.ipv4_filtering", codes "true")
      ∷ (codes "security.ipv6_filtering", codes "true")
      ∷ []

  -- an option that is only there with a value
  abbrev given : Text → Text → Map Text
  given k [] = []
  given k (c ∷ v) = (k, c ∷ v) ∷ []

  unfoldable pub launch_eth0 : Text → Text → Text → Text → Map Text
  launch_eth0 bridge ip ipv6 block =
      (codes "type", codes "nic")
      ∷ (codes "nictype", codes "bridged")
      ∷ (codes "parent", bridge)
      ∷ (codes "name", codes "eth0")
      ∷ (codes "ipv4.address", ip)
      ∷ (given (codes "ipv6.address") ipv6 ++ (given (codes "ipv6.routes") block ++ nic_isolation))

  unfoldable pub launch_config : ℕ → ℕ → Map Text
  launch_config cpu mem_mb =
      cpu_config cpu
      ++ ((codes "limits.memory", itoa mem_mb ++ codes "MiB")
          ∷ (codes "limits.processes", codes "4096")
          ∷ (codes "boot.autostart", codes "true")
          ∷ (codes "security.nesting", codes "true")
          ∷ [])

  unfoldable pub launch : Text → Text → Text → Text → Text → Text → Text → ℕ → ℕ → ℕ → S → Bool × S
  unfolding launch_eth0 launch_config
  launch pool bridge name image ip ipv6 block cpu mem_mb disk_gb s =
      let root : Map Text =
        (codes "type", codes "disk")
        ∷ (codes "path", codes "/")
        ∷ (codes "pool", pool)
        ∷ (codes "size", itoa disk_gb ++ codes "GiB")
        ∷ [] in
      on_success
        (h.create_instance name image (launch_config cpu mem_mb)
          ((codes "eth0", launch_eth0 bridge ip ipv6 block) ∷ (codes "root", root) ∷ []) s)
        (λ s1. on_success (start name s1) (h.wait_ready name) (λ s2. (false, s2)))
        (λ s1. (false, s1))
