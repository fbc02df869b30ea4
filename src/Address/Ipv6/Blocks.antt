-- ===== src/Address/Ipv6/Blocks.antt =====
-- The blocks of different names and their primary addresses (src/internal/mgr/ipv6.go), and what the
-- collision check keeps apart (src/internal/mgr/mgr.go).
use lxc_hosting.Base.{
  ℕ, ◌≡◌, ◌≢◌, refl, sym, ap, ◌∙◌, ◌++◌, true, false, arith, has_row, Bool-cases, inl, inr, some,
  text_eq, text_eq_sym, List, [], ◌∷◌, take, drop, ◌↔◌, Text, text_eq_iff, text_eq_refl, Bool, All,
  ◌⊎◌, if◌then◌else◌,
}
use lxc_hosting.Address.Ipv6.{
  Address, ipv6_block, ipv6_addr, block_contains, block_taken, block_collides,
}

-- A network as IPv6Network returns it for a prefix of at most 80 bits: 16 bytes, the last six zero.
-- A hash as SHA-256 returns it: at least four bytes.
module _ (a b c d e f g h i j : ℕ) (hash : Text → List ℕ)
    (four : (t : Text) → (w x y z : ℕ) × (rest : List ℕ) × (hash t ≡ w ∷ x ∷ y ∷ z ∷ rest)) where
  abbrev pub network : Address
  network = a ∷ b ∷ c ∷ d ∷ e ∷ f ∷ g ∷ h ∷ i ∷ j ∷ 0 ∷ 0 ∷ 0 ∷ 0 ∷ 0 ∷ 0 ∷ []

  prefix : Text → Address
  prefix name = a ∷ b ∷ c ∷ d ∷ e ∷ f ∷ g ∷ h ∷ i ∷ j ∷ take 4 (hash name)

  block_prefix : (name : Text) → take 14 (ipv6_block hash network name) ≡ prefix name
  unfolding ipv6_block prefix
  block_prefix name = let (w, x, y, z, rest, q) = four name in rw q

  addr_prefix : (name : Text) → take 14 (ipv6_addr hash network name) ≡ prefix name
  unfolding ipv6_addr prefix
  addr_prefix name = let (w, x, y, z, rest, q) = four name in rw q

  prefix_inj : (m n : Text) → prefix n ≡ prefix m → take 4 (hash m) ≡ take 4 (hash n)
  unfolding prefix
  prefix_inj m n q = sym (ap (drop 10) q)

  abbrev block : Text → Address
  block name = ipv6_block hash network name

  contains_block :
      (m n : Text)
      → text_eq (block m) (block n) ≡ true
      → block_contains (block n) (ipv6_addr hash network m) ≡ true
  contains_block m n e = (text_eq_iff _ _).1 (
      ap (take 14) (sym ((text_eq_iff (block m) (block n)).0 e))
      ∙ block_prefix m
      ∙ sym (addr_prefix m))

  -- A primary address lies in a block exactly if the first four bytes of the hashes of their names
  -- agree.
  block_contains_iff :
      (m n : Text)
      → (block_contains (ipv6_block hash network n) (ipv6_addr hash network m) ≡ true)
        ↔ (take 4 (hash m) ≡ take 4 (hash n))
  block_contains_iff m n = (
    (λ q. prefix_inj m n (sym (block_prefix n) ∙ (text_eq_iff _ _).0 q ∙ addr_prefix m)),
    (λ q. (text_eq_iff _ _).1 (
        block_prefix n
        ∙ unfold prefix in
          ap (λ (l : List ℕ). a ∷ b ∷ c ∷ d ∷ e ∷ f ∷ g ∷ h ∷ i ∷ j ∷ l) (sym q)
          ∙ sym (addr_prefix m))),
  )

  block_same : (m n : Text) → take 4 (hash m) ≡ take 4 (hash n) → block m ≡ block n
  unfolding ipv6_block
  block_same m n q = ap (λ l. take 10 network ++ (l ++ drop 14 network)) q

  no_overlap :
      (m n : Text)
      → text_eq (block m) (block n) ≡ false
      → block_contains (block n) (ipv6_addr hash network m) ≡ false
  no_overlap m n e = elim (Bool-cases (block_contains (block n) (ipv6_addr hash network m))) [
    | inl c ↦ absurd (
        cc (e, (text_eq_iff (block m) (block n)).1 (block_same m n ((block_contains_iff m n).0 c))))
    | inr c ↦ c
  ]

  -- no address of the one is in the block of the other
  abbrev pub IsApart : Text → Text → Type 0
  IsApart n m =
      (block_contains (block n) (ipv6_addr hash network m) ≡ false)
      × (block_contains (block m) (ipv6_addr hash network n) ≡ false)

  -- a user of another name whose address is in the block
  abbrev pub Overlap : List Text → Text → Type 0
  Overlap names n =
      (m : Text) × (has_row (λ x. text_eq x m) names ≡ true)
      × (m ≢ n)
      × (block_contains (block n) (ipv6_addr hash network m) ≡ true)

  -- what the loop over the users says
  Loop : List Text → Text → Bool → Type 0
  Loop names n true = Overlap names n
  Loop names n false = All (λ m. (m ≡ n) ⊎ IsApart n m) names

  Overlap-cons : (u : Text) (us : List Text) (n : Text) → Overlap us n → Overlap (u ∷ us) n
  unfolding has_row
  Overlap-cons u us n (m, r, k, c) = (m, ground (arith, r), k, c)

  cons-Loop :
      (u : Text) (us : List Text) (n : Text) (b : Bool)
      → (u ≡ n) ⊎ IsApart n u
      → Loop us n b
      → Loop (u ∷ us) n b
  unfolding Loop
  cons-Loop u us n true p l = Overlap-cons u us n l
  cons-Loop u us n false p l = (p, l)

  block_taken-Loop :
      (names : List Text) (n : Text)
      → Loop names n (block_taken (λ x. some (block x)) n (block n) names)
  unfolding block_taken Loop has_row
  block_taken-Loop [] n = tt
  block_taken-Loop (u ∷ us) n =
      let l = block_taken-Loop us n in
      elim (Bool-cases (text_eq u n)) [
        | inl e ↦ rw e (cons-Loop u us n _ (inl ((text_eq_iff u n).0 e)) l)
        | inr e ↦ elim (Bool-cases (text_eq (block u) (block n))) [
          | inl q ↦
              rw (e, q)
                (
                  u,
                  rw (text_eq_refl u) refl,
                  λ k. absurd (cc (e, (text_eq_iff u n).1 k)),
                  contains_block u n q,
                )
          | inr q ↦
              rw (e, q)
                (cons-Loop u us n _
                  (inr (no_overlap u n q, no_overlap n u (text_eq_sym (block n) (block u) ∙ q))) l)
        ]
      ]

  -- what the check says: the collision if it refuses, that there is none if it accepts
  abbrev pub Verdict : Address → List Text → Text → Bool → Type 0
  Verdict gateway names n true = Overlap names n ⊎ (block_contains (block n) gateway ≡ true)
  Verdict gateway names n false =
      (block_contains (block n) (ipv6_addr hash network n) ≡ true)
      × (block_contains (block n) gateway ≡ false)
      × All (λ m. (m ≡ n) ⊎ IsApart n m) names

  checked-Verdict :
      (gateway : Address) (names : List Text) (n : Text) (b g : Bool)
      → block_contains (block n) gateway ≡ g
      → Loop names n b
      → Verdict gateway names n (if b then true else g)
  unfolding Loop
  checked-Verdict gateway names n true g e l = inl l
  checked-Verdict gateway names n false true e l = inr e
  checked-Verdict gateway names n false false e l = ((block_contains_iff n n).1 refl, e, l)

  -- Over a network whose last six bytes are 0, with IPv6 enabled, a gateway found for the bridge and
  -- hashes of four bytes at least: if the collision check accepts a name, against the names of the
  -- users and that gateway, then the block of that name contains its own primary address, neither the
  -- gateway nor the primary address of any user of another name, and no such user's block contains
  -- the name's address. If it refuses the name, then its block contains the gateway, or the primary
  -- address of a user of another name.
  pub block_collides-apart :
      (gateway : Address) (names : List Text) (n : Text)
      → Verdict gateway names n (block_collides (λ x. some (block x)) (some gateway) names n)
  unfolding block_collides
  block_collides-apart gateway names n =
      checked-Verdict gateway names n (block_taken (λ x. some (block x)) n (block n) names)
        (block_contains (block n) gateway) refl (block_taken-Loop names n)

  -- The primary address is not the network address that the bridge's gateway search starts from,
  -- and it ends in ::1.
  pub ipv6_addr-last : (name : Text) → drop 14 (ipv6_addr hash network name) ≡ 0 ∷ 1 ∷ []
  unfolding ipv6_addr
  ipv6_addr-last name = let (w, x, y, z, rest, q) = four name in rw q
