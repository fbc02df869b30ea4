-- ===== src/Db/Counters.antt =====
-- The traffic table (src/internal/db/traffic.go). The counters of LXD are not negative.
pub mod Totals
use lxc_hosting.Base.{
  ℕ, ◌+◌, ◌-◌, Bool, true, false, not, List, [], ◌∷◌, ◌++◌, leb, ◌==◌, if◌then◌else◌, Text, text_eq,
  Option, none, some, first_where, update_where, has_row,
}
use lxc_hosting.Db.{Traffic, Db, DbResult, ok, err, constraint, no_rows}
use lxc_hosting.Db.Users.{or_no_rows}

unfoldable pub get_traffic : Db → ℕ → DbResult Traffic
get_traffic db user_id = or_no_rows (first_where (λ t. t.user_id == user_id) db.traffic)

-- What a counter grew by, counted from zero behind a reset.
abbrev pub delta : ℕ → ℕ → ℕ
delta counter baseline = if leb baseline counter then counter - baseline else counter

-- DO UPDATE SET, on the row that is there.
unfoldable pub advance : Text → ℕ → ℕ → Traffic → Traffic
advance period rx tx t = record t {
  download = (if not (text_eq t.period period) then 0 else t.download) + delta rx t.last_rx;
  upload = (if not (text_eq t.period period) then 0 else t.upload) + delta tx t.last_tx;
  last_rx = rx;
  last_tx = tx;
  period = period;
}

unfoldable pub apply_traffic : Db → ℕ → Text → ℕ → ℕ → DbResult Db
unfolding advance
apply_traffic db user_id period rx tx =
    if has_row (λ t. t.user_id == user_id) db.traffic
    then ok (record db {
      traffic = update_where (λ t. t.user_id == user_id) (advance period rx tx) db.traffic;
    })
    else if has_row (λ u. u.id == user_id) db.users
    then ok (record db {
      traffic =
          db.traffic
          ++ record {
            user_id = user_id;
            period = period;
            upload = 0;
            download = 0;
            last_rx = rx;
            last_tx = tx;
          }
            ∷ [];
    })
    else err constraint
