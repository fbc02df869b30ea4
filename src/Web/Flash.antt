-- ===== src/Web/Flash.antt =====
-- One-shot banners (src/internal/panel/flash.go).
use lxc_hosting.Base.{
  ℕ, ◌-◌, ◌≡◌, ltb, leb, if◌then◌else◌, Text, text_eq_refl, Option, none, some, Map, get, put,
  remove, get-put, get-remove, delete_where, length, arith,
}

abbrev pub flash_ttl : ℕ
flash_ttl = 600

abbrev pub flash_max_items : ℕ
flash_max_items = 2048

pub record FlashEntry : Type 0 where
  pub msg : Text
  pub kind : Text
  pub ts : ℕ

unfoldable pub set_flash : Map FlashEntry → Text → Text → Text → ℕ → Map FlashEntry
set_flash items token msg kind now =
    put token (record { msg = msg; kind = kind; ts = now })
      (if leb flash_max_items (length items)
        then delete_where (λ (e : Text × FlashEntry). ltb flash_ttl (now - e.1.ts)) items
        else items)

unfoldable pub pop_flash : Map FlashEntry → Text → Option FlashEntry × Map FlashEntry
pop_flash items token = elim (get token items) [
  | none ↦ (none, items)
  | some e ↦ (some e, remove token items)
]

unfoldable pub clear_flash : Map FlashEntry → Text → Map FlashEntry
clear_flash items token = remove token items

pop-put :
    (items : Map FlashEntry) (token : Text) (e : FlashEntry)
    → ((pop_flash (put token e items) token).0 ≡ some e)
      × ((pop_flash (pop_flash (put token e items) token).1 token).0 ≡ none)
unfolding pop_flash
pop-put items token e = ground (
  arith,
  get-put token token e items,
  get-remove token token (put token e items),
  text_eq_refl token,
)

-- A banner is shown once: the first pop returns it, the second one nothing.
pub pop_flash-once :
    (items : Map FlashEntry) (token msg kind : Text) (now : ℕ)
    → let first = pop_flash (set_flash items token msg kind now) token in
      (first.0 ≡ some (record { msg = msg; kind = kind; ts = now }))
      × ((pop_flash first.1 token).0 ≡ none)
unfolding set_flash
pop_flash-once items token msg kind now =
    pop-put _ token (record { msg = msg; kind = kind; ts = now })
