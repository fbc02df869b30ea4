-- ===== src/Mgr/Fake.antt =====
-- A host for the examples: a map of instances on which every request for a known instance succeeds.
use lxc_hosting.Base.{
  ◌≡◌, ◌≢◌, ◌∙◌, refl, sym, ap, Bool, true, false, [], Text, text_eq, text_eq_iff, text_eq_refl,
  codes, Option, none, some, Map, get, put, get-put, if◌then◌else◌, Bool-cases, inl, inr,
}
use lxc_hosting.Host.{Instance, Lookup, found, not_found, removed, Calls}
use lxc_hosting.Host.Lx.{merge}
use lxc_hosting.Host.Laws.{IsLawful}

abbrev pub Lxd : Type 0
Lxd = Map Instance

abbrev answer : Option Instance → Lookup
answer none = not_found
answer (some i) = found i

abbrev edit : Text → (Instance → Instance) → Lxd → Option Instance → Bool × Lxd
edit n f s none = (false, s)
edit n f s (some i) = (true, put n (f i) s)

abbrev pub fake : Calls Lxd
fake = record {
  get_instance = λ n s. (answer (get n s), s);
  patch_config = λ n p s. edit n (λ i. record i { config = merge p i.config }) s (get n s);
  patch_devices = λ n d s. edit n (λ i. record i { devices = d }) s (get n s);
  put_state = λ n a s. (true, s);
  create_instance = λ n image c d s.
      (true, put n (record { status = codes "Stopped"; config = c; devices = d }) s);
  delete_instance = λ n s. (true, s);
  wait_ready = λ n s. (true, s);
  exec_sh = λ n t s. (true, s);
  run_init_script = λ n t s. (true, s);
  image_exists = λ n s. (true, s);
  instance_static_ips = λ s. (some [], s);
  snapshot = λ s. (some [], s);
  pool_has_room = λ s. (true, s);
  write_file = λ n t s. (true, s);
  rename = λ a b s. (true, s);
  remove_file = λ n s. (removed, s);
  read_dir = λ n s. (some [], s);
  nft_reload = λ s. (true, s);
  systemctl = λ a b s. (true, s);
  wire_ipv6 = λ n s. (true, s);
  unwire_ipv6 = λ n s. s;
  configure_ipv6 = λ n s. (true, s);
  write_db = λ s. (true, s);
}

abbrev pub view : Lxd → Text → Option Instance
view s n = get n s

edit-done :
    (n : Text) (f : Instance → Instance) (s : Lxd) (o : Option Instance)
    → get n s ≡ o
    → (edit n f s o).0 ≡ true
    → (i : Instance) × (get n s ≡ some i) × (get n (edit n f s o).1 ≡ some (f i))
edit-done n f s none e q = absurd (cc q)
edit-done n f s (some i) e q =
    (i, e, get-put n n (f i) s ∙ ap (λ b. if b then some (f i) else get n s) (text_eq_refl n))

edit-failed :
    (n : Text) (f : Instance → Instance) (s : Lxd) (o : Option Instance)
    → (edit n f s o).0 ≡ false
    → get n (edit n f s o).1 ≡ get n s
edit-failed n f s none q = refl
edit-failed n f s (some i) q = absurd (cc q)

edit-other :
    (n : Text) (f : Instance → Instance) (s : Lxd) (o : Option Instance) (m : Text)
    → m ≢ n
    → get m (edit n f s o).1 ≡ get m s
edit-other n f s none m k = refl
edit-other n f s (some i) m k = elim (Bool-cases (text_eq n m)) [
  | inl e ↦ absurd (k (sym ((text_eq_iff n m).0 e)))
  | inr e ↦ get-put n m (f i) s ∙ ap (λ b. if b then some (f i) else get m s) e
]

pub fake-IsLawful : IsLawful fake view
fake-IsLawful = record {
  heard = λ s. true;
  get_heard = λ n s q. refl;
  config_heard = λ n p s q. refl;
  devices_heard = λ n d s q. refl;
  get_same = λ n m s. refl;
  config_done =
      λ n p s q. edit-done n (λ i. record i { config = merge p i.config }) s (get n s) refl q;
  config_failed =
      λ n p s q k. edit-failed n (λ i. record i { config = merge p i.config }) s (get n s) q;
  config_other =
      λ n p s m k. edit-other n (λ i. record i { config = merge p i.config }) s (get n s) m k;
  devices_done = λ n d s q. edit-done n (λ i. record i { devices = d }) s (get n s) refl q;
  devices_failed = λ n d s q k. edit-failed n (λ i. record i { devices = d }) s (get n s) q;
  devices_other = λ n d s m k. edit-other n (λ i. record i { devices = d }) s (get n s) m k;
  db_same = λ m s. refl;
}

-- It loses no response.
pub fake-heard : (s : Lxd) → fake-IsLawful.heard s ≡ true
unfolding fake-IsLawful
fake-heard s = refl
