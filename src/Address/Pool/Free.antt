-- ===== src/Address/Pool/Free.antt =====
-- Which indexes and ports are picked (src/internal/db/user.go, src/internal/mgr/mgr.go).
use lxc_hosting.Base.{
  ℕ, zero, suc, ◌+◌, ◌%◌, ◌≤◌, ◌<◌, ◌≡◌, ◌≢◌, ◌⊎◌, inl, inr, true, false, List, [], ◌∷◌, ◌==◌,
  if◌then◌else◌, Option, none, some, length, get_elem?, arith, refl, ap, subst, Bool-cases, ==_iff,
  All, All-imp,
}
use lxc_hosting.Address.Ports.{ssh_port_base, ssh_port_count, max_users}
use lxc_hosting.Address.Pool.{
  ok, err, user_limit, is_used, collect, free_from, pick, draw_from, next_free_idx, random_port,
  lowest_port, or_lowest, alloc_ssh_port,
}

abbrev pub IsFree : List ℕ → ℕ → ℕ → ℕ → Type 0
IsFree used lo hi x = (lo ≤ x) × (x < hi) × (is_used x used ≡ false)

free_from-IsFree : (n i : ℕ) (used : List ℕ) → All (IsFree used i (i + n)) (free_from n i used)
unfolding free_from
free_from-IsFree zero i used = tt
free_from-IsFree (suc n) i used =
    let rest =
      All-imp (IsFree used (i + 1) (i + 1 + n)) (IsFree used i (i + suc n))
        (free_from n (i + 1) used) (λ x h. (omega arith, omega arith, h.2))
        (free_from-IsFree n (i + 1) used) in
    elim (Bool-cases (is_used i used)) [
      | inl e ↦ rw e rest
      | inr e ↦ rw e ((omega arith, omega arith, e), rest)
    ]

-- No free index is left only where every index is used.
free_from-nil :
    (n i : ℕ) (used : List ℕ) (x : ℕ)
    → free_from n i used ≡ []
    → i ≤ x
    → x < i + n
    → is_used x used ≡ true
unfolding free_from
free_from-nil zero i used x h lo hi = absurd (omega arith)
free_from-nil (suc n) i used x h lo hi = elim (Bool-cases (is_used i used)) [
  | inl e ↦ elim (Bool-cases (x == i)) [
    | inl same ↦ rw ((==_iff x i).0 same) e
    | inr other ↦ free_from-nil n (i + 1) used x (rw e at h) (ground arith) (omega arith)
  ]
  | inr e ↦ absurd (cc (rw e at h))
]

get-All : (P : ℕ → Type 0) (xs : List ℕ) (i : ℕ) (x : ℕ) → All P xs → get_elem? xs i ≡ some x → P x
get-All P [] i x h e = cc
get-All P (y ∷ xs) zero x h e = subst P (cc) h.0
get-All P (y ∷ xs) (suc i) x h e = get-All P xs i x h.1 e

get-total : (xs : List ℕ) (i : ℕ) → i < length xs → (x : ℕ) × (get_elem? xs i ≡ some x)
get-total [] i h = absurd (omega arith)
get-total (y ∷ xs) zero h = (y, refl)
get-total (y ∷ xs) (suc i) h = get-total xs i (omega arith)

random_port-IsFree :
    (n i : ℕ) (used : List ℕ) (random : ℕ → Option ℕ) (p : ℕ)
    → random_port n i used random ≡ some p
    → IsFree used ssh_port_base (ssh_port_base + ssh_port_count) p
unfolding random_port
random_port-IsFree zero i used random p h = cc
random_port-IsFree (suc n) i used random p h =
    ground (arith, random_port-IsFree n (i + 1) used random p)

lowest_port-IsFree :
    (n q : ℕ) (used : List ℕ) (p : ℕ) → lowest_port n q used ≡ some p → IsFree used q (q + n) p
unfolding lowest_port
lowest_port-IsFree zero q used p h = cc
lowest_port-IsFree (suc n) q used p h = ground (arith, lowest_port-IsFree n (q + 1) used p)

pick-ok : (o : Option ℕ) (i : ℕ) → pick o ≡ ok i → o ≡ some i
pick-ok none i e = cc
pick-ok (some x) i e = ground arith

draw_from-All :
    (P : ℕ → Type 0) (free : List ℕ) (random : Option ℕ) (i : ℕ)
    → All P free
    → draw_from free random ≡ ok i
    → P i
unfolding draw_from
draw_from-All P [] random i h e = cc
draw_from-All P (x ∷ free) none i h e = cc
draw_from-All P (x ∷ free) (some r) i h e =
    get-All P (x ∷ free) (r % length (x ∷ free)) i h (pick-ok (get_elem? (x ∷ free) _) i e)

-- A pick of the index is in 1..200 and unused.
pub next_free_idx-IsFree :
    (idxs : List ℕ) (random : Option ℕ) (i : ℕ)
    → next_free_idx idxs random ≡ ok i
    → (1 ≤ i) × (i ≤ max_users) × (is_used i idxs ≡ false)
unfolding next_free_idx
next_free_idx-IsFree idxs random i h =
    let f =
      draw_from-All (IsFree idxs 1 (1 + max_users)) (free_from max_users 1 idxs) random i
        (free_from-IsFree max_users 1 idxs) h in
    (f.0, omega arith, f.2)

-- With a working generator a pick fails only if all 200 indexes are used.
pub next_free_idx-full :
    (idxs : List ℕ) (r : ℕ)
    → ((i : ℕ) × (next_free_idx idxs (some r) ≡ ok i))
      ⊎ ((next_free_idx idxs (some r) ≡ err user_limit)
          × ((x : ℕ) → 1 ≤ x → x ≤ max_users → is_used x idxs ≡ true))
unfolding next_free_idx
next_free_idx-full idxs r =
    full (free_from max_users 1 idxs)
      λ e x lo hi. free_from-nil max_users 1 idxs x e lo (omega arith)
  where
    full :
        (free : List ℕ)
        → (free ≡ [] → (x : ℕ) → 1 ≤ x → x ≤ max_users → is_used x idxs ≡ true)
        → ((i : ℕ) × (draw_from free (some r) ≡ ok i))
          ⊎ ((draw_from free (some r) ≡ err user_limit)
              × ((x : ℕ) → 1 ≤ x → x ≤ max_users → is_used x idxs ≡ true))
    full [] all = inr (refl, all refl)
    full (x ∷ free) all =
        let got = get-total (x ∷ free) (r % length (x ∷ free)) (omega arith) in
        inl (got.0, ap pick got.1)

-- Pigeonholes: a list that holds every number of a range is at least as long as the range.
remove : ℕ → List ℕ → List ℕ
remove x [] = []
remove x (y ∷ ys) = if x == y then ys else y ∷ remove x ys

length-remove : (x : ℕ) (ys : List ℕ) → is_used x ys ≡ true → length ys ≡ suc (length (remove x ys))
unfolding is_used remove
length-remove x [] h = cc
length-remove x (y ∷ ys) h = ground (arith, length-remove x ys)

is_used-remove :
    (x z : ℕ) (ys : List ℕ) → z ≢ x → is_used z ys ≡ true → is_used z (remove x ys) ≡ true
unfolding is_used remove
is_used-remove x z [] n h = cc
is_used-remove x z (y ∷ ys) n h = ground (arith, is_used-remove x z ys n)

range_le_length :
    (n q : ℕ) (used : List ℕ)
    → ((x : ℕ) → q ≤ x → x < q + n → is_used x used ≡ true)
    → n ≤ length used
range_le_length zero q used all = omega arith
range_le_length (suc n) q used all = omega (
  arith,
  length-remove q used (all q (omega arith) (omega arith)),
  range_le_length n (q + 1) (remove q used)
      (λ x lo hi. is_used-remove q x used (omega arith) (all x (omega arith) (omega arith))),
)

lowest_port-none :
    (n q : ℕ) (used : List ℕ) (x : ℕ)
    → lowest_port n q used ≡ none
    → q ≤ x
    → x < q + n
    → is_used x used ≡ true
unfolding lowest_port
lowest_port-none zero q used x h lo hi = absurd (omega arith)
lowest_port-none (suc n) q used x h lo hi = elim (Bool-cases (is_used q used)) [
  | inl e ↦ elim (Bool-cases (x == q)) [
    | inl same ↦ rw ((==_iff x q).0 same) e
    | inr other ↦ lowest_port-none n (q + 1) used x (rw e at h) (ground arith) (omega arith)
  ]
  | inr e ↦ absurd (cc (rw e at h))
]

is_used-collect : (x : ℕ) (ports : List ℕ) → is_used x (collect ports) ≡ is_used x ports
unfolding is_used collect
is_used-collect x [] = refl
is_used-collect x (y ∷ ports) = ground (arith, is_used-collect x ports, is_used-collect y ports)

or_lowest-All :
    (P : ℕ → Type 0) (r l : Option ℕ) (p : ℕ)
    → ((x : ℕ) → r ≡ some x → P x)
    → ((x : ℕ) → l ≡ some x → P x)
    → or_lowest r l ≡ ok p
    → P p
or_lowest-All P (some x) l p hr hl e = subst P (ground arith) (hr x refl)
or_lowest-All P none (some x) p hr hl e = subst P (ground arith) (hl x refl)
or_lowest-All P none none p hr hl e = cc

or_lowest-total : (r l : Option ℕ) → l ≢ none → (p : ℕ) × (or_lowest r l ≡ ok p)
or_lowest-total (some p) l h = (p, refl)
or_lowest-total none (some p) h = (p, refl)
or_lowest-total none none h = absurd (h refl)

-- The port that is picked is in the SSH range and nobody's.
pub alloc_ssh_port-IsFree :
    (ports : List ℕ) (random : ℕ → Option ℕ) (p : ℕ)
    → alloc_ssh_port ports random ≡ ok p
    → (ssh_port_base ≤ p) × (p < ssh_port_base + ssh_port_count) × (is_used p ports ≡ false)
unfolding alloc_ssh_port
alloc_ssh_port-IsFree ports random p h = rw (← is_used-collect p ports) (
    or_lowest-All (IsFree (collect ports) ssh_port_base (ssh_port_base + ssh_port_count)) _ _ p
      (λ x. random_port-IsFree 32 0 (collect ports) random x)
      (λ x. lowest_port-IsFree ssh_port_count ssh_port_base (collect ports) x) (ground arith))

-- Whatever the generator does, a port is found as long as fewer than 2000 ports are used.
pub alloc_ssh_port-total :
    (ports : List ℕ) (random : ℕ → Option ℕ)
    → length (collect ports) < ssh_port_count
    → (p : ℕ) × (alloc_ssh_port ports random ≡ ok p)
unfolding alloc_ssh_port
alloc_ssh_port-total ports random h =
    let (p, e) =
      or_lowest-total (random_port 32 0 (collect ports) random)
        (lowest_port ssh_port_count ssh_port_base (collect ports))
        (λ none_left. omega (
          arith,
          range_le_length ssh_port_count ssh_port_base (collect ports) (λ x lo hi.
              lowest_port-none ssh_port_count ssh_port_base (collect ports) x none_left lo hi),
        )) in
    (p, ground (arith, e))
