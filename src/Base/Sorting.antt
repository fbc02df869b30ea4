-- ===== src/Base/Sorting.antt =====
-- ORDER BY: insertion sort by a test.
use mathlib.Core.Path.{◌≡◌, refl}
use mathlib.Core.Bool.{Bool, ◌||◌}
use mathlib.Core.List.{List, [], ◌∷◌}
use native.Mathlib.Omega.{arith}
use lxc_hosting.Base.Tests.{if◌then◌else◌}
use lxc_hosting.Base.Rows.{All, has_row}

module _ {ℓ} {A : Type ℓ} (before : A → A → Bool) where
  unfoldable pub insert_by : A → List A → List A
  insert_by x [] = x ∷ []
  insert_by x (y ∷ ys) = if before x y then x ∷ y ∷ ys else y ∷ insert_by x ys

  unfoldable pub sort_by : List A → List A
  unfolding insert_by
  sort_by [] = []
  sort_by (x ∷ xs) = insert_by x (sort_by xs)

  pub insert_by-All {κ} :
      (P : A → Type κ) (x : A) (ys : List A) → P x → All P ys → All P (insert_by x ys)
  unfolding insert_by
  insert_by-All P x [] h k = (h, tt)
  insert_by-All P x (y ∷ ys) h k = ground (arith, insert_by-All P x ys h k.1)

  pub sort_by-All {κ} : (P : A → Type κ) (xs : List A) → All P xs → All P (sort_by xs)
  unfolding sort_by
  sort_by-All P [] h = tt
  sort_by-All P (x ∷ xs) h = insert_by-All P x (sort_by xs) h.0 (sort_by-All P xs h.1)

  insert_by-has_row :
      (q : A → Bool) (x : A) (ys : List A) → has_row q (insert_by x ys) ≡ (q x || has_row q ys)
  unfolding insert_by has_row
  insert_by-has_row q x [] = refl
  insert_by-has_row q x (y ∷ ys) = ground (arith, insert_by-has_row q x ys)

  pub sort_by-has_row : (q : A → Bool) (xs : List A) → has_row q (sort_by xs) ≡ has_row q xs
  unfolding sort_by has_row
  sort_by-has_row q [] = refl
  sort_by-has_row q (x ∷ xs) =
      ground (arith, insert_by-has_row q x (sort_by xs), sort_by-has_row q xs)
