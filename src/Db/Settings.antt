-- ===== src/Db/Settings.antt =====
-- The settings table (src/internal/db/settings.go).
use lxc_hosting.Base.{
  [], ◌∷◌, ◌++◌, if◌then◌else◌, Text, text_eq, Option, codes, first_where, update_where, has_row,
}
use mathlib.Core.Option
use lxc_hosting.Db.{Db}

abbrev pub setting_v4_forward : Text
setting_v4_forward = codes "v4_forward"

-- `none` is an absent key.
unfoldable pub get_setting : Db → Text → Option Text
get_setting db key = Option.map (λ s. s.value) (first_where (λ s. text_eq s.key key) db.settings)

unfoldable pub set_setting : Db → Text → Text → Db
set_setting db key value = record db {
  settings =
      (if has_row (λ s. text_eq s.key key) db.settings
        then update_where (λ s. text_eq s.key key) (λ s. record s { value = value }) db.settings
        else db.settings ++ record { key = key; value = value } ∷ []);
}
