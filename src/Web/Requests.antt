-- ===== src/Web/Requests.antt =====
-- The CSRF test (src/internal/csrf/csrf.go) and the secret prefix (src/internal/panel/panel.go).
pub mod Origins
use lxc_hosting.Base.{
  ℕ, ◌+◌, Bool, true, false, ◌||◌, not, List, [], ◌∷◌, ◌++◌, ◌==◌, if◌then◌else◌, Text, text_eq,
  codes, Option, none, some,
}

-- The fields of a request that the test reads; an absent header is empty.
pub record Request : Type 0 where
  pub method : Text
  pub sec_fetch_site : Text
  pub origin : Text
  pub host : Text

-- `origin[i+3:]` for the first "://", or the whole text
unfoldable pub drop_scheme : Text → Option Text
drop_scheme [] = none
drop_scheme (a ∷ []) = none
drop_scheme (a ∷ b ∷ []) = none
drop_scheme (a ∷ b ∷ c ∷ s) =
    let rest = drop_scheme (b ∷ c ∷ s) in
    if text_eq (a ∷ b ∷ c ∷ []) (codes "://") then some s else rest

abbrev pub or_whole : Text → Option Text → Text
or_whole s none = s
or_whole s (some t) = t

-- `origin[:i]` for the first slash
unfoldable pub before_slash : Text → Text
before_slash [] = []
before_slash (c ∷ s) = if c == b'/' then [] else c ∷ before_slash s

unfoldable pub origin_host : Text → Text
unfolding drop_scheme before_slash
origin_host origin = before_slash (or_whole origin (drop_scheme origin))

abbrev pub is_empty : Text → Bool
is_empty [] = true
is_empty (c ∷ s) = false

unfoldable pub allowed : Request → Bool
allowed r =
    if not (text_eq r.method (codes "POST"))
    then true
    else if not (is_empty r.sec_fetch_site)
    then text_eq r.sec_fetch_site (codes "same-origin") || text_eq r.sec_fetch_site (codes "none")
    else if is_empty r.origin
    then true
    else text_eq (origin_host r.origin) r.host

-- strings.TrimPrefix, where the text has the prefix
unfoldable pub cut_prefix : Text → Text → Option Text
cut_prefix [] s = some s
cut_prefix (p ∷ ps) [] = none
cut_prefix (p ∷ ps) (c ∷ s) = if p == c then cut_prefix ps s else none

abbrev pub below : Option Text → Option Text
below (some (c ∷ s)) = if c == b'/' then some (c ∷ s) else none
below _ = none

-- The path under the prefix; `none` is the featureless 404.
unfoldable pub strip_prefix : Text → Text → Option Text
unfolding cut_prefix
strip_prefix path prefix =
    if text_eq path prefix then some (b'/' ∷ []) else below (cut_prefix prefix path)
