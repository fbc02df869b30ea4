-- ===== src/Config/Snapshot/Drift.antt =====
-- What `vps config set` does to the fields that are fixed at install (src/main.go, configSet;
-- src/internal/cfg/snapshot.go).
use lxc_hosting.Base.{
  ◌≡◌, ◌⊎◌, inl, inr, refl, Bool, true, false, not, ◌&&◌, List, [], ◌∷◌, if◌then◌else◌, Text,
  text_eq, text_eq_refl, Option, none, some, get, Bool-cases, arith,
}
use lxc_hosting.Config.{is_set}
use lxc_hosting.Config.Registry.{
  File, Net, Key, panel_listen, panel_url_path, field_value, field_for, name_of, apply_of,
}
use lxc_hosting.Config.Registry.Assign.{assign}
use lxc_hosting.Config.Commands.{
  SetArgs, World, SetResult, no_terminal, refused, no_args, parse_args, save, confirm, assigned,
  from_prompt, from_typed, from_value, unless_refused, for_key, for_args, config_set, prompted,
  dangerous_apply,
}
use lxc_hosting.Config.Snapshot.{
  immutable_snapshot, values_of, verify_immutable, drifted, intact, changed,
}

-- The fields of the snapshot are the same, but for a user path that was empty.
record Fixed (c c' : File) : Type 0 where
  subnet : c'.subnet ≡ c.subnet
  gateway : c'.gateway ≡ c.gateway
  pool : c'.pool ≡ c.pool
  bridge : c'.bridge ≡ c.bridge
  url_path : (c'.url_path ≡ c.url_path) ⊎ (c.url_path ≡ [])

Fixed-refl : (c : File) → Fixed c c
Fixed-refl c = record {
  subnet = refl;
  gateway = refl;
  pool = refl;
  bridge = refl;
  url_path = inl refl;
}

assign-Fixed :
    (net : Net) (c : File) (k : Key) (v : Text) (c' : File)
    → refused c k ≡ none
    → assign net c k v ≡ some c'
    → Fixed c c'
unfolding assign refused
assign-Fixed net c panel_listen v c' r e = ground arith
assign-Fixed net c panel_url_path v c' r e = ground arith
assign-Fixed net c k v c' r e = ground arith

module _ (net : Net) (w : World) (c : File) (k : Key) (a : SetArgs) where
  save-Fixed : (c' : File) → Fixed c c' → Fixed c (save w c c' k a).1
  save-Fixed c' h = elim (Bool-cases (not w.can_save)) [
    | inl e ↦ rw e (Fixed-refl c)
    | inr e ↦ elim (Bool-cases a.no_apply) [ inl f ↦ rw (e, f) h | inr f ↦ rw (e, f) h ]
  ]

  confirm-Fixed : (c' : File) (o : Option Bool) → Fixed c c' → Fixed c (confirm w c c' k a o).1
  confirm-Fixed c' none h = Fixed-refl c
  confirm-Fixed c' (some false) h = Fixed-refl c
  confirm-Fixed c' (some true) h = save-Fixed c' h

  accepted-Fixed : (c' : File) → Fixed c c' → Fixed c (assigned net w c k a (some c')).1
  accepted-Fixed c' h = elim (Bool-cases (text_eq (field_value c' k) (field_value c k))) [
    | inl e ↦ rw e (Fixed-refl c)
    | inr e ↦ elim (Bool-cases (not a.no_apply && (dangerous_apply (apply_of k) && w.is_tty))) [
      | inl f ↦ rw (e, f) (confirm-Fixed c' w.confirmed h)
      | inr f ↦ rw (e, f) (save-Fixed c' h)
    ]
  ]

  module _ (open_key : refused c k ≡ none) where
    assigned-Fixed :
        (v : Text) (o : Option File) → assign net c k v ≡ o → Fixed c (assigned net w c k a o).1
    assigned-Fixed v none e = Fixed-refl c
    assigned-Fixed v (some c') e = accepted-Fixed c' (assign-Fixed net c k v c' open_key e)

    from_prompt-Fixed : (o : Option Text) → Fixed c (from_prompt net w c k a o).1
    from_prompt-Fixed none = Fixed-refl c
    from_prompt-Fixed (some v) = assigned-Fixed v (assign net c k v) refl

    from_typed-Fixed : (o : Option Text) → Fixed c (from_typed net w c k a o).1
    from_typed-Fixed none = Fixed-refl c
    from_typed-Fixed (some s) = from_prompt-Fixed (prompted net c k s)

    typed_or :
        (b : Bool) → Fixed c (if b then from_typed net w c k a w.typed else (no_terminal, c)).1
    typed_or true = from_typed-Fixed w.typed
    typed_or false = Fixed-refl c

    from_value-Fixed : (v : Text) → Fixed c (from_value net w c k a v).1
    from_value-Fixed [] = typed_or w.is_tty
    from_value-Fixed (d ∷ v) = assigned-Fixed (d ∷ v) (assign net c k (d ∷ v)) refl

  unless_refused-Fixed :
      (o : Option SetResult) → refused c k ≡ o → Fixed c (unless_refused net w c k a o).1
  unless_refused-Fixed (some r) e = Fixed-refl c
  unless_refused-Fixed none e = from_value-Fixed e a.value

for_key-Fixed :
    (net : Net) (w : World) (c : File) (a : SetArgs) (o : Option Key)
    → Fixed c (for_key net w c a o).1
for_key-Fixed net w c a none = Fixed-refl c
for_key-Fixed net w c a (some k) = unless_refused-Fixed net w c k a (refused c k) refl

for_args-Fixed :
    (net : Net) (w : World) (c : File) (o : Option SetArgs) → Fixed c (for_args net w c o).1
for_args-Fixed net w c none = Fixed-refl c
for_args-Fixed net w c (some a) = elim (Bool-cases (not (is_set a.key))) [
  | inl e ↦ rw e (Fixed-refl c)
  | inr e ↦ elim (Bool-cases (a.apply && a.no_apply)) [
    | inl f ↦ rw (e, f) (Fixed-refl c)
    | inr f ↦ rw (e, f) (for_key-Fixed net w c a (field_for a.key))
  ]
]

config_set-Fixed :
    (net : Net) (w : World) (c : File) (args : List Text) → Fixed c (config_set net w c args).1
unfolding config_set
config_set-Fixed net w c args = for_args-Fixed net w c (parse_args no_args args)

verify-Fixed :
    (c c' : File)
    → Fixed c c'
    → verify_immutable c' (some (immutable_snapshot c))
      ≡ (if text_eq c'.url_path c.url_path then intact else changed (panel_url_path ∷ []))
unfolding verify_immutable drifted immutable_snapshot values_of get name_of field_value text_eq
verify-Fixed c c' h =
    let e1 : text_eq c'.subnet c.subnet ≡ true = rw h.subnet (text_eq_refl c.subnet) in
    let e2 : text_eq c'.gateway c.gateway ≡ true = rw h.gateway (text_eq_refl c.gateway) in
    let e3 : text_eq c'.pool c.pool ≡ true = rw h.pool (text_eq_refl c.pool) in
    let e4 : text_eq c'.bridge c.bridge ≡ true = rw h.bridge (text_eq_refl c.bridge) in
    elim (Bool-cases (text_eq c'.url_path c.url_path)) [
      | inl e ↦ rw (e1, e2, e3, e4, e) refl
      | inr e ↦ rw (e1, e2, e3, e4, e) refl
    ]

-- Whatever `vps config set` does, the snapshot of before still verifies, unless it has enabled the
-- user panel, whose path was empty: then that path is reported as drifted, and nothing else.
pub config_set-drift :
    (net : Net) (w : World) (c : File) (args : List Text)
    → let c' = (config_set net w c args).1 in
      (verify_immutable c' (some (immutable_snapshot c))
        ≡ (if text_eq c'.url_path c.url_path then intact else changed (panel_url_path ∷ [])))
      × ((c'.url_path ≡ c.url_path) ⊎ (c.url_path ≡ []))
config_set-drift net w c args =
    let h = config_set-Fixed net w c args in
    (verify-Fixed c (config_set net w c args).1 h, h.url_path)
