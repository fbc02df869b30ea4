-- ===== src/Config/Snapshot.antt =====
-- The fields that are fixed at install (src/internal/cfg/snapshot.go). What json.Unmarshal makes of
-- the stored text is an argument, `none` for an error.
pub mod Drift
use lxc_hosting.Base.{
  Bool, true, false, not, List, [], ◌∷◌, if◌then◌else◌, Text, text_eq, Option, none, some, Map, get,
}
use lxc_hosting.Config.Registry.{
  File, Key, panel_url_path, net_subnet, net_gateway, lxd_pool, lxd_bridge, name_of, field_value,
}

abbrev pub immutable_fields : List Key
immutable_fields = net_subnet ∷ net_gateway ∷ lxd_pool ∷ lxd_bridge ∷ panel_url_path ∷ []

unfoldable pub values_of : File → List Key → Map Text
values_of c [] = []
values_of c (k ∷ ks) = (name_of k, field_value c k) ∷ values_of c ks

-- ImmutableSnapshot, before it is rendered as JSON
unfoldable pub immutable_snapshot : File → Map Text
unfolding values_of
immutable_snapshot c = values_of c immutable_fields

-- a key that the snapshot has another value for
abbrev pub differs_from : Option Text → Text → Bool
differs_from none v = false
differs_from (some w) v = not (text_eq v w)

unfoldable pub drifted : File → Map Text → List Key → List Key
drifted c snapshot [] = []
drifted c snapshot (k ∷ ks) =
    let rest = drifted c snapshot ks in
    if differs_from (get (name_of k) snapshot) (field_value c k) then k ∷ rest else rest

pub data Verdict : Type 0 where
  intact invalid_snapshot : Verdict
  changed : List Key → Verdict

abbrev verdict : List Key → Verdict
verdict [] = intact
verdict (k ∷ ks) = changed (k ∷ ks)

-- VerifyImmutable
unfoldable pub verify_immutable : File → Option (Map Text) → Verdict
unfolding drifted
verify_immutable c none = invalid_snapshot
verify_immutable c (some snapshot) = verdict (drifted c snapshot immutable_fields)
