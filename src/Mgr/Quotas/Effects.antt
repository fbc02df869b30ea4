-- ===== src/Mgr/Quotas/Effects.antt =====
-- SetCPU, SetMem and SetDisk on the limits of an instance (src/internal/lx/lx.go).
use lxc_hosting.Base.{
  ℕ, ◌≡◌, ◌≢◌, ◌∙◌, refl, sym, ap, Bool, true, false, [], ◌∷◌, ◌++◌, Text, text_eq, codes, Option,
  none, some, Map, get, put, get-put, get-remove, if◌then◌else◌,
}
use lxc_hosting.Std.Strconv.{itoa}
use lxc_hosting.Quota.Cpu.{cpu_limit_config}
use lxc_hosting.Host.{Instance, Lookup, found, not_found, unreachable, Calls}
use lxc_hosting.Host.Lx.{
  merge, cpu_config, set_cpu, set_mem, set_disk, on_device, on_found, patch_device,
}
use lxc_hosting.Host.Laws.{IsLawful}

-- the limits of an instance, as LXD has them
pub record Live : Type 0 where
  pub cpu : Option Text
  pub allowance : Option Text
  pub memory : Option Text
  pub size : Option Text

abbrev pub kept : Text → Option Text
kept [] = none
kept (c ∷ v) = some (c ∷ v)

abbrev pub size_of : Option (Map Text) → Option Text
size_of none = none
size_of (some root) = get (codes "size") root

abbrev pub shown : Option Instance → Live
shown none = record { cpu = none; allowance = none; memory = none; size = none }
shown (some i) = record {
  cpu = get (codes "limits.cpu") i.config;
  allowance = get (codes "limits.cpu.allowance") i.config;
  memory = get (codes "limits.memory") i.config;
  size = size_of (get (codes "root") i.devices);
}

abbrev pub with_cpu : ℕ → Live → Live
with_cpu c l = record l {
  cpu = kept (cpu_limit_config c).limits_cpu;
  allowance = kept (cpu_limit_config c).allowance;
}

abbrev pub with_mem : ℕ → Live → Live
with_mem mb l = record l { memory = kept (itoa mb ++ codes "MiB") }

abbrev pub with_disk : ℕ → Live → Live
with_disk gb l = record l { size = some (itoa gb ++ codes "GiB") }

merge-get :
    (k j : Text) (v : Text) (c : Map Text)
    → get j (merge ((k, v) ∷ []) c) ≡ (if text_eq k j then kept v else get j c)
unfolding merge
merge-get k j [] c = get-remove k j c
merge-get k j (a ∷ v) c = get-put k j (a ∷ v) c

merge-cons : (k v : Text) (p c : Map Text) → merge ((k, v) ∷ p) c ≡ merge p (merge ((k, v) ∷ []) c)
unfolding merge
merge-cons k [] p c = refl
merge-cons k (a ∷ v) p c = refl

live_eq :
    (a b c d a' b' c' d' : Option Text)
    → a ≡ a'
    → b ≡ b'
    → c ≡ c'
    → d ≡ d'
    → ◌≡◌ {A = Live}
        (record { cpu = a; allowance = b; memory = c; size = d })
        (record { cpu = a'; allowance = b'; memory = c'; size = d' })
live_eq a b c d a' b' c' d' p q r s = rw (p, q, r, s) refl

-- two entries with different keys
merge-get_two :
    (k l j v w : Text) (c : Map Text)
    → get j (merge ((k, v) ∷ (l, w) ∷ []) c)
      ≡ (if text_eq l j then kept w else if text_eq k j then kept v else get j c)
merge-get_two k l j v w c =
    rw (merge-cons k v ((l, w) ∷ []) c, merge-get l j w (merge ((k, v) ∷ []) c), merge-get k j v c)
      refl

merge-cpu :
    (n : ℕ) (i : Instance)
    → shown (some (record i { config = merge (cpu_config n) i.config }))
      ≡ with_cpu n (shown (some i))
unfolding cpu_config text_eq
merge-cpu n i =
    let l = cpu_limit_config n in
    let at = λ (j : Text).
      merge-get_two (codes "limits.cpu") (codes "limits.cpu.allowance") j l.limits_cpu l.allowance
        i.config in
    live_eq _ _ _ _ _ _ _ _ (at (codes "limits.cpu")) (at (codes "limits.cpu.allowance"))
      (at (codes "limits.memory")) refl

merge-mem :
    (t : Text) (i : Instance)
    → shown (some (record i { config = merge ((codes "limits.memory", t) ∷ []) i.config }))
      ≡ record (shown (some i)) { memory = kept t }
unfolding text_eq
merge-mem t i =
    let at = λ (j : Text). merge-get (codes "limits.memory") j t i.config in
    live_eq _ _ _ _ _ _ _ _ (at (codes "limits.cpu")) (at (codes "limits.cpu.allowance"))
      (at (codes "limits.memory")) refl

put-size :
    (v : Text) (root : Map Text) (ds : Map (Map Text)) (i : Instance)
    → shown (some (record i { devices = put (codes "root") (put (codes "size") v root) ds }))
      ≡ record (shown (some i)) { size = some v }
unfolding text_eq
put-size v root ds i = live_eq _ _ _ _ _ _ _ _ refl refl refl (
    ap size_of (get-put (codes "root") (codes "root") (put (codes "size") v root) ds)
    ∙ get-put (codes "size") (codes "size") v root)

module _ {S : Type 0} (h : Calls S) (view : S → Text → Option Instance) (w : IsLawful h view) where
  -- The action changes the limits of its instance by `g` if it succeeds, and not at all if it fails
  -- with all responses heard; other instances stay as they are.
  pub record Sets (n : Text) (g : Live → Live) (act : S → Bool × S) : Type 0 where
    pub done : (s : S) → (act s).0 ≡ true → shown (view (act s).1 n) ≡ g (shown (view s n))
    pub failed :
        (s : S)
        → (act s).0 ≡ false
        → w.heard (act s).1 ≡ true
        → shown (view (act s).1 n) ≡ shown (view s n)
    pub heard : (s : S) → w.heard (act s).1 ≡ true → w.heard s ≡ true
    pub others : (s : S) (m : Text) → m ≢ n → view (act s).1 m ≡ view s m

  patch-Sets :
      (n : Text) (p : Map Text) (g : Live → Live)
      → ((i : Instance)
          → shown (some (record i { config = merge p i.config })) ≡ g (shown (some i)))
      → Sets n g (h.patch_config n p)
  patch-Sets n p g e = record {
    done = λ s q.
        (let (i, before, after) = w.config_done n p s q in
          ap shown after ∙ e i ∙ ap (λ o. g (shown o)) (sym before));
    failed = λ s q k. ap shown (w.config_failed n p s q k);
    heard = λ s k. w.config_heard n p s k;
    others = λ s m k. w.config_other n p s m k;
  }

  pub set_cpu-Sets : (n : Text) (c : ℕ) → Sets n (with_cpu c) (set_cpu h n c)
  unfolding set_cpu
  set_cpu-Sets n c = patch-Sets n (cpu_config c) (with_cpu c) (merge-cpu c)

  pub set_mem-Sets : (n : Text) (mb : ℕ) → Sets n (with_mem mb) (set_mem h n mb)
  unfolding set_mem
  set_mem-Sets n mb =
      patch-Sets n ((codes "limits.memory", itoa mb ++ codes "MiB") ∷ []) (with_mem mb)
        (merge-mem (itoa mb ++ codes "MiB"))

  -- what SetDisk does with the answer of the GET
  abbrev disk_from : Text → ℕ → Lookup × S → Bool × S
  disk_from n gb r =
      on_device h (codes "root") r
        (λ it root.
          patch_device h n (codes "root") it (put (codes "size") (itoa gb ++ codes "GiB") root))
        (λ s'. (false, s'))

  abbrev SetsSize : Text → ℕ → S → Bool × S → Type 0
  SetsSize n gb s r =
      (r.0 ≡ true → shown (view r.1 n) ≡ with_disk gb (shown (view s n)))
      × (r.0 ≡ false → w.heard r.1 ≡ true → shown (view r.1 n) ≡ shown (view s n))
      × (w.heard r.1 ≡ true → w.heard s ≡ true)
      × ((m : Text) → m ≢ n → view r.1 m ≡ view s m)

  found-SetsSize :
      (n : Text) (gb : ℕ) (s : S) (it : Instance) (s1 : S) (o : Option (Map Text))
      → ((m : Text) → view s1 m ≡ view s m)
      → (w.heard s1 ≡ true → w.heard s ≡ true)
      → SetsSize n gb s (
          on_found h o it s1
            (λ it root.
              patch_device h n (codes "root") it (put (codes "size") (itoa gb ++ codes "GiB") root))
            (λ s'. (false, s')))
  found-SetsSize n gb s it s1 none same heard =
      (λ q. absurd (cc q), λ q k. ap shown (same n), heard, λ m k. same m)
  found-SetsSize n gb s it s1 (some root) same heard =
      let v = itoa gb ++ codes "GiB" in
      let d = put (codes "root") (put (codes "size") v root) it.devices in
      (
        λ q.
            (let (j, before, after) = w.devices_done n d s1 q in
              ap shown after
              ∙ put-size v root it.devices j
              ∙ ap (λ o. with_disk gb (shown o)) (sym before ∙ same n)),
        λ q k. ap shown (w.devices_failed n d s1 q k ∙ same n),
        λ k. heard (w.devices_heard n d s1 k),
        λ m k. w.devices_other n d s1 m k ∙ same m,
      )

  disk_from-SetsSize :
      (n : Text) (gb : ℕ) (s : S) (r : Lookup × S)
      → ((m : Text) → view r.1 m ≡ view s m)
      → (w.heard r.1 ≡ true → w.heard s ≡ true)
      → SetsSize n gb s (disk_from n gb r)
  disk_from-SetsSize n gb s (not_found, s1) same heard =
      (λ q. absurd (cc q), λ q k. ap shown (same n), heard, λ m k. same m)
  disk_from-SetsSize n gb s (unreachable, s1) same heard =
      (λ q. absurd (cc q), λ q k. ap shown (same n), heard, λ m k. same m)
  disk_from-SetsSize n gb s (found it, s1) same heard =
      found-SetsSize n gb s it s1 (get (codes "root") it.devices) same heard

  pub set_disk-Sets : (n : Text) (gb : ℕ) → Sets n (with_disk gb) (set_disk h n gb)
  unfolding set_disk
  set_disk-Sets n gb =
      let all = λ (s : S).
        disk_from-SetsSize n gb s (h.get_instance n s) (λ m. w.get_same n m s)
          (λ k. w.get_heard n s k) in
      record {
        done = λ s. (all s).0;
        failed = λ s. (all s).1;
        heard = λ s. (all s).2;
        others = λ s. (all s).3;
      }
