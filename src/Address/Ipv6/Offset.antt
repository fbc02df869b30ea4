-- ===== src/Address/Ipv6/Offset.antt =====
-- addHostOffset and bridgeGateway as arithmetic (src/internal/mgr/ipv6.go).
use mathlib.Core.List.{reverse, reverse-reverse, reverse-cons}
use native.Mathlib.Nat.{pow-succ'}
use lxc_hosting.Base.{
  ℕ, zero, suc, ◌+◌, ◌*◌, ◌/◌, ◌%◌, ◌^◌, ◌≤◌, ◌<◌, ◌≡◌, inl, inr, refl, sym, ap, ◌∙◌, Bool, true,
  false, List, [], ◌∷◌, ltb, ◌==◌, if◌then◌else◌, none, some, take, drop, arith, ==_iff, All,
  All-append, length, length-drop, length-reverse, drop-take-append, take-take-append, Bool-cases,
}
use lxc_hosting.Address.Ipv6.{Address, add_bytes, add_host_offset, pick_gateway, bridge_gateway}

abbrev pub IsByte : ℕ → Type 0
IsByte b = b < 256

-- the number that bytes stand for, the least significant first
unfoldable pub le_value : List ℕ → ℕ
le_value [] = 0
le_value (b ∷ bs) = b + 256 * le_value bs

span : List ℕ → ℕ
span [] = 1
span (b ∷ bs) = 256 * span bs

span-length : (bs : List ℕ) → span bs ≡ 256 ^ length bs
unfolding span
span-length [] = refl
span-length (b ∷ bs) = rw (span-length bs) (sym (pow-succ' 256 (length bs)))

-- With the carry out of the last byte, the sum is exact.
add_bytes_carry :
    (bs : List ℕ) (k : ℕ)
    → All IsByte bs
    → (carry : ℕ) × (le_value (add_bytes bs k) + span bs * carry ≡ le_value bs + k)
unfolding add_bytes le_value span
add_bytes_carry [] k h = (k, omega arith)
add_bytes_carry (b ∷ bs) k h =
    let v = b + k % 256 in
    let (c, e) = add_bytes_carry bs (k / 256 + (if ltb 255 v then 1 else 0)) h.1 in
    elim (Bool-cases (k == 0)) [
      | inl z ↦ (0, rw z (ground arith))
      | inr z ↦ (c, rw z (ground arith))
    ]

length-add_bytes : (bs : List ℕ) (k : ℕ) → length (add_bytes bs k) ≡ length bs
unfolding add_bytes
length-add_bytes [] k = refl
length-add_bytes (b ∷ bs) k =
    ground (arith, length-add_bytes bs (k / 256 + (if ltb 255 (b + k % 256) then 1 else 0)))

add_bytes-IsByte : (bs : List ℕ) (k : ℕ) → All IsByte bs → All IsByte (add_bytes bs k)
unfolding add_bytes
add_bytes-IsByte [] k h = tt
add_bytes-IsByte (b ∷ bs) k h =
    let low : (b + k % 256) % 256 < 256 = omega arith in
    ground (arith, add_bytes-IsByte bs (k / 256 + (if ltb 255 (b + k % 256) then 1 else 0)) h.1)

reverse-IsByte : (bs : List ℕ) → All IsByte bs → All IsByte (reverse bs)
reverse-IsByte [] h = tt
reverse-IsByte (b ∷ bs) h =
    rw (reverse-cons b bs)
      (All-append IsByte (reverse bs) (b ∷ []) (reverse-IsByte bs h.1) (h.0, tt))

drop-IsByte : (n : ℕ) (bs : List ℕ) → All IsByte bs → All IsByte (drop n bs)
drop-IsByte zero bs h = h
drop-IsByte (suc n) [] h = tt
drop-IsByte (suc n) (b ∷ bs) h = drop-IsByte n bs h.1

abbrev pub IsAddress : Address → Type 0
IsAddress ip = (length ip ≡ 16) × All IsByte ip

-- the low 64 bits as a number
abbrev pub host : Address → ℕ
host ip = le_value (reverse (drop 8 ip))

low_span : (ip : Address) → length ip ≡ 16 → span (reverse (drop 8 ip)) ≡ 2 ^ 64
low_span ip h =
    rw (span-length (reverse (drop 8 ip)), length-reverse (drop 8 ip), length-drop 8 ip, h)

low_sum :
    (bs : List ℕ) (k : ℕ)
    → All IsByte bs
    → span bs ≡ 2 ^ 64
    → le_value bs + k < 2 ^ 64
    → le_value (add_bytes bs k) ≡ le_value bs + k
low_sum bs k h e lt = let (c, s) = add_bytes_carry bs k h in omega (arith, ap (λ (t : ℕ). t * c) e)

-- As long as the sum fits in 64 bits, the offset is added to the host part and the network part
-- stays as it is.
pub add_host_offset_sum :
    (ip : Address) (k : ℕ)
    → IsAddress ip
    → host ip + k < 2 ^ 64
    → (host (add_host_offset ip k) ≡ host ip + k) × (take 8 (add_host_offset ip k) ≡ take 8 ip)
add_host_offset_sum ip k h lt =
    let low = add_bytes (reverse (drop 8 ip)) k in
    unfold add_host_offset in
    (
      ap (λ l. le_value (reverse l)) (drop-take-append 8 ip (reverse low) (omega (arith, h.0)))
          ∙ ap le_value (reverse-reverse low)
          ∙ low_sum (reverse (drop 8 ip)) k (reverse-IsByte (drop 8 ip) (drop-IsByte 8 ip h.1))
              (low_span ip h.0) lt,
      take-take-append 8 ip (reverse low) (omega (arith, h.0)),
    )

pick_gateway-free :
    (n k : ℕ) (base g : Address) (in_use : Address → Bool)
    → pick_gateway n k base in_use ≡ some g
    → (j : ℕ) × (k ≤ j)
      × (j < k + n)
      × (g ≡ add_host_offset base j)
      × (in_use g ≡ false)
      × ((i : ℕ) → k ≤ i → i < j → in_use (add_host_offset base i) ≡ true)
unfolding pick_gateway
pick_gateway-free zero k base g in_use h = absurd (cc)
pick_gateway-free (suc n) k base g in_use h = elim (Bool-cases (in_use (add_host_offset base k))) [
  | inl e ↦
      let (j, lo, hi, at, free, below) = pick_gateway-free n (k + 1) base g in_use (rw e at h) in
      (
        j,
        omega arith,
        omega arith,
        at,
        free,
        λ i p q. elim (Bool-cases (i == k)) [
          | inl same ↦ rw ((==_iff i k).0 same) e
          | inr other ↦ below i (ground arith) q
        ],
      )
  | inr e ↦
      let same : g ≡ add_host_offset base k = ground arith in
      (k, omega arith, omega arith, same, cc (e, same), λ i p q. absurd (omega arith))
]

-- The gateway is the first address behind the network address that nobody uses, and it is one of
-- the first 65535.
pub bridge_gateway-first :
    (network g : Address) (in_use : Address → Bool)
    → bridge_gateway network in_use ≡ some g
    → (j : ℕ) × (1 ≤ j)
      × (j < 65536)
      × (g ≡ add_host_offset network j)
      × (in_use g ≡ false)
      × ((i : ℕ) → 1 ≤ i → i < j → in_use (add_host_offset network i) ≡ true)
unfolding bridge_gateway
bridge_gateway-first network g in_use h = pick_gateway-free 65535 1 network g in_use h

pick_gateway-none :
    (n k : ℕ) (base : Address) (in_use : Address → Bool) (i : ℕ)
    → pick_gateway n k base in_use ≡ none
    → k ≤ i
    → i < k + n
    → in_use (add_host_offset base i) ≡ true
unfolding pick_gateway
pick_gateway-none zero k base in_use i h p q = absurd (omega arith)
pick_gateway-none (suc n) k base in_use i h p q =
    elim (Bool-cases (in_use (add_host_offset base k))) [
      | inl e ↦ elim (Bool-cases (i == k)) [
        | inl same ↦ rw ((==_iff i k).0 same) e
        | inr other ↦
            pick_gateway-none n (k + 1) base in_use i (rw e at h) (ground arith) (omega arith)
      ]
      | inr e ↦ absurd (cc (rw e at h))
    ]

-- It fails only if all of those are used.
pub bridge_gateway-none :
    (network : Address) (in_use : Address → Bool) (i : ℕ)
    → bridge_gateway network in_use ≡ none
    → 1 ≤ i
    → i < 65536
    → in_use (add_host_offset network i) ≡ true
unfolding bridge_gateway
bridge_gateway-none network in_use i h p q =
    pick_gateway-none 65535 1 network in_use i h p (omega arith)
