-- ===== src/Host/Laws.antt =====
-- What the manager relies on of LXD: a request that succeeds has its documented effect on its own
-- instance, one that LXD refuses has none, and no other instance changes. A request also fails when
-- its response is lost (src/internal/lx/lx.go, do), and may have had its effect or not.
use lxc_hosting.Base.{◌≡◌, ◌≢◌, Bool, true, false, Text, Map, Option, some}
use lxc_hosting.Host.{Instance, Calls}
use lxc_hosting.Host.Lx.{merge}

-- `view s n` is the instance `n` on the host `s`.
pub record IsLawful {S : Type 0} (h : Calls S) (view : S → Text → Option Instance) : Type 0 where
  -- no response has been lost so far
  pub heard : S → Bool
  pub get_heard : (n : Text) (s : S) → heard (h.get_instance n s).1 ≡ true → heard s ≡ true
  pub config_heard :
      (n : Text) (p : Map Text) (s : S) → heard (h.patch_config n p s).1 ≡ true → heard s ≡ true
  pub devices_heard :
      (n : Text) (d : Map (Map Text)) (s : S)
      → heard (h.patch_devices n d s).1 ≡ true
      → heard s ≡ true
  pub get_same : (n m : Text) (s : S) → view (h.get_instance n s).1 m ≡ view s m
  pub config_done :
      (n : Text) (p : Map Text) (s : S)
      → (h.patch_config n p s).0 ≡ true
      → (i : Instance) × (view s n ≡ some i)
        × (view (h.patch_config n p s).1 n ≡ some (record i { config = merge p i.config }))
  pub config_failed :
      (n : Text) (p : Map Text) (s : S)
      → (h.patch_config n p s).0 ≡ false
      → heard (h.patch_config n p s).1 ≡ true
      → view (h.patch_config n p s).1 n ≡ view s n
  pub config_other :
      (n : Text) (p : Map Text) (s : S) (m : Text)
      → m ≢ n
      → view (h.patch_config n p s).1 m ≡ view s m
  pub devices_done :
      (n : Text) (d : Map (Map Text)) (s : S)
      → (h.patch_devices n d s).0 ≡ true
      → (i : Instance) × (view s n ≡ some i)
        × (view (h.patch_devices n d s).1 n ≡ some (record i { devices = d }))
  pub devices_failed :
      (n : Text) (d : Map (Map Text)) (s : S)
      → (h.patch_devices n d s).0 ≡ false
      → heard (h.patch_devices n d s).1 ≡ true
      → view (h.patch_devices n d s).1 n ≡ view s n
  pub devices_other :
      (n : Text) (d : Map (Map Text)) (s : S) (m : Text)
      → m ≢ n
      → view (h.patch_devices n d s).1 m ≡ view s m
  pub db_same : (m : Text) (s : S) → view (h.write_db s).1 m ≡ view s m
