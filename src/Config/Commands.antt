-- ===== src/Config/Commands.antt =====
-- `vps config set` (src/main.go: configSet, promptConfigValue, dangerousApply), as a function of the
-- configuration file, the arguments and what the terminal answers.
use lxc_hosting.Base.{
  Bool, true, false, not, ◌&&◌, List, [], ◌∷◌, if◌then◌else◌, Text, text_eq, codes, Option, none,
  some,
}
use lxc_hosting.Std.Strings.{trim_space}
use lxc_hosting.Names.{to_lower}
use lxc_hosting.Config.{is_set}
use lxc_hosting.Config.Registry.{
  File, Net, Key, panel_listen, panel_admin_url_path, FieldKind, immutable, auto, Apply, restart,
  install, immediate, next_add, never, Editable, only_when_empty, kind_of, apply_of, editable,
  field_value, field_for,
}
use lxc_hosting.Config.Registry.Assign.{assign}

-- The arguments behind `set`.
pub record SetArgs : Type 0 where
  pub key : Text
  pub value : Text
  pub apply : Bool
  pub no_apply : Bool

-- One argument: a flag, then the key, then the value; a text that is empty does not count as one
-- that was given. `none` is a third text.
unfoldable pub arg_step : SetArgs → Text → Option SetArgs
arg_step a t =
    if text_eq t (codes "--apply")
    then some (record a { apply = true })
    else if text_eq t (codes "--no-apply")
    then some (record a { no_apply = true })
    else if not (is_set a.key)
    then some (record a { key = t })
    else if not (is_set a.value)
    then some (record a { value = t })
    else none

unfoldable pub parse_args : SetArgs → List Text → Option SetArgs
unfolding arg_step
parse_args a [] = some a
parse_args a (t ∷ ts) = elim (arg_step a t) [ none ↦ none | some a' ↦ parse_args a' ts ]

abbrev pub no_args : SetArgs
no_args = record { key = []; value = []; apply = false; no_apply = false }

-- The terminal and the system: is there one, what was typed for a value (`none` is an error), what
-- was answered to the question (`none` is an error), and whether the file can be written, the new
-- port is free, the panel restarts, and `vps install` and the refresh of the IPv4 state succeed.
pub record World : Type 0 where
  pub is_tty : Bool
  pub typed : Option Text
  pub confirmed : Option Bool
  pub can_save : Bool
  pub port_free : Text → Bool
  pub panel_restarts : Bool
  pub install_succeeds : Bool
  pub refresh_succeeds : Bool

pub data SetResult : Type 0 where
  -- nothing to do; saved, and not applied; saved, and what took effect
  unchanged saved not_restarted restarted installed refreshed for_next_add : SetResult
  bad_usage both_flags unknown_key not_editable managed_elsewhere no_terminal : SetResult
  no_input bad_value aborted no_answer save_failed port_in_use : SetResult
  install_failed refresh_failed not_settable : SetResult

-- dangerousApply
abbrev pub dangerous_apply : Apply → Bool
dangerous_apply install = true
dangerous_apply immediate = true
dangerous_apply _ = false

-- the value, and whether one was given
abbrev or_disabled : Text → Text
or_disabled [] = codes "disabled"
or_disabled (c ∷ t) = c ∷ t

abbrev is_admin_path : Key → Bool
is_admin_path panel_admin_url_path = true
is_admin_path _ = false

-- promptConfigValue, on what was typed: `none` keeps the value.
unfoldable pub prompted : Net → File → Key → Text → Option Text
prompted net c k s =
    let v = trim_space s in
    if is_admin_path k && text_eq (to_lower net.lower_other v) (codes "clear")
    then some []
    else if text_eq v (or_disabled (field_value c k))
    then none
    else some v

-- refused, unless the path of the user panel is empty
abbrev pub refused_kind : FieldKind → Editable → Text → Option SetResult
refused_kind immutable only_when_empty [] = none
refused_kind immutable _ _ = some not_editable
refused_kind auto _ _ = some managed_elsewhere
refused_kind _ _ _ = none

unfoldable pub refused : File → Key → Option SetResult
unfolding field_value kind_of editable
refused c k = refused_kind (kind_of k) (editable k) (field_value c k)

abbrev after_restart : World → File → Key → SetResult
after_restart w c panel_listen =
    if w.port_free c.listen
    then (if w.panel_restarts then restarted else not_restarted)
    else port_in_use
after_restart w c _ = if w.panel_restarts then restarted else not_restarted

-- The switch over Apply, behind the save.
abbrev pub applied : World → File → Key → Bool → Apply → SetResult
applied w c k apply restart = after_restart w c k
applied w c k apply install =
    if apply then (if w.install_succeeds then installed else install_failed) else saved
applied w c k apply next_add = for_next_add
applied w c k apply immediate = if w.refresh_succeeds then refreshed else refresh_failed
applied w c k apply never = not_settable

abbrev pub save : World → File → File → Key → SetArgs → SetResult × File
save w c c' k a =
    if not w.can_save
    then (save_failed, c)
    else if a.no_apply
    then (saved, c')
    else (applied w c' k a.apply (apply_of k), c')

-- the question before a change that is disruptive
abbrev pub confirm : World → File → File → Key → SetArgs → Option Bool → SetResult × File
confirm w c c' k a none = (no_answer, c)
confirm w c c' k a (some false) = (aborted, c)
confirm w c c' k a (some true) = save w c c' k a

abbrev pub assigned : Net → World → File → Key → SetArgs → Option File → SetResult × File
assigned net w c k a none = (bad_value, c)
assigned net w c k a (some c') =
    if text_eq (field_value c' k) (field_value c k)
    then (unchanged, c)
    else if not a.no_apply && (dangerous_apply (apply_of k) && w.is_tty)
    then confirm w c c' k a w.confirmed
    else save w c c' k a

abbrev pub from_prompt : Net → World → File → Key → SetArgs → Option Text → SetResult × File
from_prompt net w c k a none = (unchanged, c)
from_prompt net w c k a (some v) = assigned net w c k a (assign net c k v)

abbrev pub from_typed : Net → World → File → Key → SetArgs → Option Text → SetResult × File
from_typed net w c k a none = (no_input, c)
from_typed net w c k a (some s) = from_prompt net w c k a (prompted net c k s)

abbrev pub from_value : Net → World → File → Key → SetArgs → Text → SetResult × File
from_value net w c k a [] = if w.is_tty then from_typed net w c k a w.typed else (no_terminal, c)
from_value net w c k a (d ∷ v) = assigned net w c k a (assign net c k (d ∷ v))

abbrev pub unless_refused : Net → World → File → Key → SetArgs → Option SetResult → SetResult × File
unless_refused net w c k a (some r) = (r, c)
unless_refused net w c k a none = from_value net w c k a a.value

abbrev pub for_key : Net → World → File → SetArgs → Option Key → SetResult × File
for_key net w c a none = (unknown_key, c)
for_key net w c a (some k) = unless_refused net w c k a (refused c k)

abbrev pub for_args : Net → World → File → Option SetArgs → SetResult × File
for_args net w c none = (bad_usage, c)
for_args net w c (some a) =
    if not (is_set a.key)
    then (bad_usage, c)
    else if a.apply && a.no_apply
    then (both_flags, c)
    else for_key net w c a (field_for a.key)

-- configSet: the result, and the file that is left. A file that cannot be loaded is not modelled.
unfoldable pub config_set : Net → World → File → List Text → SetResult × File
unfolding parse_args prompted refused
config_set net w c args = for_args net w c (parse_args no_args args)
