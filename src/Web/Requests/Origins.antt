-- ===== src/Web/Requests/Origins.antt =====
-- Which requests are let through, and which paths reach the panel.
use lxc_hosting.Base.{
  ℕ, ◌≡◌, ◌≢◌, ◌↔◌, ◌⊎◌, inl, inr, refl, ap, ◌∙◌, true, false, [], ◌∷◌, ◌++◌, ◌==◌, Text, text_eq,
  text_eq_iff, text_eq_refl, codes, Option, none, some, All, arith, Bool-cases,
}
use lxc_hosting.Web.Requests.{
  Request, drop_scheme, or_whole, before_slash, origin_host, is_empty, allowed, cut_prefix,
  strip_prefix, below,
}

abbrev pub IsHost : Text → Type 0
IsHost = All (λ c. (c ≢ b'/') × (c ≢ b':'))

before_slash-host :
    (host rest : Text) → All (λ c. c ≢ b'/') host → before_slash (host ++ (b'/' ∷ rest)) ≡ host
unfolding before_slash
before_slash-host [] rest h = refl
before_slash-host (c ∷ host) rest h = ground (arith, before_slash-host host rest h.1)

before_slash_id : (host : Text) → All (λ c. c ≢ b'/') host → before_slash host ≡ host
unfolding before_slash
before_slash_id [] h = refl
before_slash_id (c ∷ host) h = ground (arith, before_slash_id host h.1)

drop_scheme-scheme :
    (scheme rest : Text)
    → All (λ c. c ≢ b':') scheme
    → drop_scheme (scheme ++ (b':' ∷ b'/' ∷ b'/' ∷ rest)) ≡ some rest
unfolding drop_scheme text_eq
drop_scheme-scheme [] rest h = refl
drop_scheme-scheme (a ∷ []) rest h = ground arith
drop_scheme-scheme (a ∷ b ∷ []) rest h = ground (arith, drop_scheme-scheme (b ∷ []) rest h.1)
drop_scheme-scheme (a ∷ b ∷ c ∷ s) rest h = ground (arith, drop_scheme-scheme (b ∷ c ∷ s) rest h.1)

-- Of an origin `scheme://host`, with or without a path, the host is left.
pub origin_host-origin :
    (scheme host : Text)
    → All (λ c. c ≢ b':') scheme
    → All (λ c. c ≢ b'/') host
    → (origin_host (scheme ++ (b':' ∷ b'/' ∷ b'/' ∷ host)) ≡ host)
      × ((path : Text)
          → origin_host (scheme ++ (b':' ∷ b'/' ∷ b'/' ∷ (host ++ (b'/' ∷ path)))) ≡ host)
unfolding origin_host
origin_host-origin scheme host hs hh = (
  ap (λ o. before_slash (or_whole (scheme ++ (b':' ∷ b'/' ∷ b'/' ∷ host)) o))
        (drop_scheme-scheme scheme host hs)
      ∙ before_slash_id host hh,
  λ path.
      ap (λ o. before_slash (or_whole (scheme ++ (b':' ∷ b'/' ∷ b'/' ∷ (host ++ (b'/' ∷ path)))) o))
        (drop_scheme-scheme scheme (host ++ (b'/' ∷ path)) hs)
      ∙ before_slash-host host path hh,
)

origin_host-bare :
    (scheme host : Text)
    → All (λ c. c ≢ b':') scheme
    → All (λ c. c ≢ b'/') host
    → origin_host (scheme ++ (b':' ∷ b'/' ∷ b'/' ∷ host)) ≡ host
origin_host-bare scheme host hs hh = (origin_host-origin scheme host hs hh).0

text_eq-longer : (p : Text) (c : ℕ) (t : Text) → text_eq (p ++ (c ∷ t)) p ≡ false
unfolding text_eq
text_eq-longer [] c t = refl
text_eq-longer (d ∷ p) c t = ground (arith, text_eq-longer p c t)

is_empty-append : (s : Text) (c : ℕ) (t : Text) → is_empty (s ++ (c ∷ t)) ≡ false
is_empty-append [] c t = refl
is_empty-append (d ∷ s) c t = refl

-- A POST that names its origin `scheme://host`, without Sec-Fetch-Site, passes exactly if that
-- host is the request's own.
pub allowed-origin :
    (r : Request) (scheme host : Text)
    → r.method ≡ codes "POST"
    → r.sec_fetch_site ≡ []
    → r.origin ≡ scheme ++ (b':' ∷ b'/' ∷ b'/' ∷ host)
    → All (λ c. c ≢ b':') scheme
    → All (λ c. c ≢ b'/') host
    → (allowed r ≡ true) ↔ (host ≡ r.host)
unfolding allowed
allowed-origin r scheme host m s o hs hh =
    rw
      (
        m,
        s,
        o,
        text_eq_refl (codes "POST"),
        is_empty-append scheme b':' (b'/' ∷ b'/' ∷ host),
        origin_host-bare scheme host hs hh,
      )
      (text_eq_iff host r.host)

cut_prefix-append : (p rest : Text) → cut_prefix p (p ++ rest) ≡ some rest
unfolding cut_prefix
cut_prefix-append [] rest = refl
cut_prefix-append (c ∷ p) rest = ground (arith, cut_prefix-append p rest)

cut_prefix-some : (p path rest : Text) → cut_prefix p path ≡ some rest → path ≡ p ++ rest
unfolding cut_prefix
cut_prefix-some [] path rest h = ground arith
cut_prefix-some (c ∷ p) [] rest h = cc
cut_prefix-some (c ∷ p) (d ∷ path) rest h = ground (arith, cut_prefix-some p path rest)

below-some :
    (path prefix : Text) (o : Option Text) (rest : Text)
    → cut_prefix prefix path ≡ o
    → below o ≡ some rest
    → (tail : Text) × (rest ≡ b'/' ∷ tail) × (path ≡ prefix ++ rest)
below-some path prefix none rest e h = absurd (cc h)
below-some path prefix (some []) rest e h = absurd (cc h)
below-some path prefix (some (c ∷ t)) rest e h =
    let p = cut_prefix-some prefix path (c ∷ t) e in
    elim (Bool-cases (c == b'/')) [
      | inl k ↦ (let q : rest ≡ c ∷ t = ground (arith, k, h) in (t, ground (arith, q, k), rw q p))
      | inr k ↦ absurd (cc (rw k at h))
    ]

-- A path reaches the panel only if it is the secret prefix or lies under it, and then the handlers
-- see what stands behind the prefix.
pub strip_prefix-some :
    (path prefix rest : Text)
    → strip_prefix path prefix ≡ some rest
    → ((path ≡ prefix) × (rest ≡ b'/' ∷ []))
      ⊎ ((tail : Text) × (rest ≡ b'/' ∷ tail) × (path ≡ prefix ++ rest))
unfolding strip_prefix
strip_prefix-some path prefix rest h = elim (Bool-cases (text_eq path prefix)) [
  | inl e ↦ inl ((text_eq_iff path prefix).0 e, (let k = (rw e at h) in ground (arith, k)))
  | inr e ↦
      inr (below-some path prefix (cut_prefix prefix path) rest refl (let k = (rw e at h) in k))
]

-- Every path under the prefix does.
pub strip_prefix-under :
    (prefix tail : Text) → strip_prefix (prefix ++ (b'/' ∷ tail)) prefix ≡ some (b'/' ∷ tail)
unfolding strip_prefix
strip_prefix-under prefix tail =
    rw (text_eq-longer prefix b'/' tail, cut_prefix-append prefix (b'/' ∷ tail)) refl
