-- ===== src/Base/Rows.antt =====
-- Tables as lists of rows, with the row-wise statements of SQL (SELECT, UPDATE, DELETE with a
-- WHERE test), and what they keep.
use Prim.Native.Nat.{ℕ, ◌≤◌}
use mathlib.Core.Path.{◌≡◌, refl, ap, sym, subst, ◌∙◌}
use mathlib.Core.Logic.{◌≢◌}
use mathlib.Core.Bool.{Bool, true, false, ◌||◌}
use mathlib.Core.Option.{Option, none, some}
use mathlib.Core.List.{List, [], ◌∷◌, ◌++◌}
use native.Mathlib.Omega.{arith}
use lxc_hosting.Base.Tests.{if◌then◌else◌}
use lxc_hosting.Base.Lists.{length}

module _ {ℓ} {A : Type ℓ} where
  unfoldable pub first_where : (A → Bool) → List A → Option A
  first_where p [] = none
  first_where p (x ∷ xs) = if p x then some x else first_where p xs

  unfoldable pub all_where : (A → Bool) → List A → List A
  all_where p [] = []
  all_where p (x ∷ xs) = let rest = all_where p xs in if p x then x ∷ rest else rest

  unfoldable pub update_where : (A → Bool) → (A → A) → List A → List A
  update_where p f [] = []
  update_where p f (x ∷ xs) = (if p x then f x else x) ∷ update_where p f xs

  unfoldable pub delete_where : (A → Bool) → List A → List A
  delete_where p [] = []
  delete_where p (x ∷ xs) = let rest = delete_where p xs in if p x then rest else x ∷ rest

  unfoldable pub has_row : (A → Bool) → List A → Bool
  has_row p [] = false
  has_row p (x ∷ xs) = p x || has_row p xs

  abbrev pub All {κ} : (A → Type κ) → List A → Type κ
  All P [] = Unit
  All P (x ∷ xs) = P x × All P xs

module _ {ℓ κ} {A : Type ℓ} (P : A → Type κ) where
  pub All-imp {μ} : (Q : A → Type μ) (xs : List A) → ((a : A) → P a → Q a) → All P xs → All Q xs
  All-imp Q [] f h = tt
  All-imp Q (x ∷ xs) f h = (f x h.0, All-imp Q xs f h.1)

  pub All-append : (xs ys : List A) → All P xs → All P ys → All P (xs ++ ys)
  All-append [] ys hx hy = hy
  All-append (x ∷ xs) ys hx hy = (hx.0, All-append xs ys hx.1 hy)

  pub All-delete_where : (p : A → Bool) (xs : List A) → All P xs → All P (delete_where p xs)
  unfolding delete_where
  All-delete_where p [] h = tt
  All-delete_where p (x ∷ xs) h = ground (arith, All-delete_where p xs h.1)

  pub All-all_where : (p : A → Bool) (xs : List A) → All P xs → All P (all_where p xs)
  unfolding all_where
  All-all_where p [] h = tt
  All-all_where p (x ∷ xs) h = ground (arith, All-all_where p xs h.1)

  pub All-update_where :
      (p : A → Bool) (f : A → A) (xs : List A)
      → ((a : A) → P a → P (f a))
      → All P xs
      → All P (update_where p f xs)
  unfolding update_where
  All-update_where p f [] k h = tt
  All-update_where p f (x ∷ xs) k h = ground (arith, k x h.0, All-update_where p f xs k h.1)

  pub All-first_where :
      (p : A → Bool) (xs : List A) {a : A} → All P xs → first_where p xs ≡ some a → P a
  unfolding first_where
  All-first_where p [] h e = cc
  All-first_where p (x ∷ xs) {a} h e = ground (arith, All-first_where p xs {a = a} h.1)

module _ {ℓ} {A : Type ℓ} (p : A → Bool) where
  -- No row passes the test exactly where `has_row` says so.
  pub All-has_row : (xs : List A) → has_row p xs ≡ false → All (λ x. p x ≡ false) xs
  unfolding has_row
  All-has_row [] h = tt
  All-has_row (x ∷ xs) h = ground (arith, All-has_row xs)

  pub first_where-true : (xs : List A) {a : A} → first_where p xs ≡ some a → p a ≡ true
  unfolding first_where
  first_where-true [] e = cc
  first_where-true (x ∷ xs) {a} e = ground (arith, first_where-true xs {a = a})

  pub first_where-none : (xs : List A) → first_where p xs ≡ none → All (λ x. p x ≡ false) xs
  unfolding first_where
  first_where-none [] e = tt
  first_where-none (x ∷ xs) e = ground (arith, first_where-none xs)

  pub first_where-snoc :
      (xs : List A) (x : A)
      → All (λ y. p y ≡ false) xs
      → p x ≡ true
      → first_where p (xs ++ x ∷ []) ≡ some x
  unfolding first_where
  first_where-snoc [] x h e = ground arith
  first_where-snoc (y ∷ xs) x h e = ground (arith, first_where-snoc xs x h.1)

  pub delete_where_id : (xs : List A) → All (λ y. p y ≡ false) xs → delete_where p xs ≡ xs
  unfolding delete_where
  delete_where_id [] h = refl
  delete_where_id (y ∷ xs) h = ground (arith, delete_where_id xs h.1)

  -- Deleting what was just inserted gives the table back.
  pub delete_where-snoc :
      (xs : List A) (x : A)
      → All (λ y. p y ≡ false) xs
      → p x ≡ true
      → delete_where p (xs ++ x ∷ []) ≡ xs
  unfolding delete_where
  delete_where-snoc [] x h e = ground arith
  delete_where-snoc (y ∷ xs) x h e = ground (arith, delete_where-snoc xs x h.1)

  pub first_where-delete_where : (xs : List A) → first_where p (delete_where p xs) ≡ none
  unfolding first_where delete_where
  first_where-delete_where [] = refl
  first_where-delete_where (x ∷ xs) = ground (arith, first_where-delete_where xs)

  pub All-delete_where_true : (xs : List A) → All (λ x. p x ≡ false) (delete_where p xs)
  unfolding delete_where
  All-delete_where_true [] = tt
  All-delete_where_true (x ∷ xs) = ground (arith, All-delete_where_true xs)

  pub length-delete_where-le : (xs : List A) → length (delete_where p xs) ≤ length xs
  unfolding delete_where
  length-delete_where-le [] = omega arith
  length-delete_where-le (x ∷ xs) = ground (arith, length-delete_where-le xs)

  pub length-update_where : (f : A → A) (xs : List A) → length (update_where p f xs) ≡ length xs
  unfolding update_where
  length-update_where f [] = refl
  length-update_where f (x ∷ xs) = ap ℕ.suc (length-update_where f xs)

  -- A row that is found is found with the change, where the change keeps the test.
  pub first_where-update_where :
      (f : A → A) (xs : List A) {a : A}
      → ((x : A) → p (f x) ≡ p x)
      → first_where p xs ≡ some a
      → first_where p (update_where p f xs) ≡ some (f a)
  unfolding first_where update_where
  first_where-update_where f [] k e = cc
  first_where-update_where f (x ∷ xs) {a} k e =
      ground (arith, k x, first_where-update_where f xs {a = a} k)

-- Rows with pairwise different keys.
module _ {ℓ κ} {A : Type ℓ} {K : Type κ} (key : A → K) where
  abbrev pub Unique : List A → Type (ℓ ⊔ κ)
  Unique [] = Unit
  Unique (x ∷ xs) = All (λ y. key x ≢ key y) xs × Unique xs

  pub Unique-delete_where : (p : A → Bool) (xs : List A) → Unique xs → Unique (delete_where p xs)
  unfolding delete_where
  Unique-delete_where p [] h = tt
  Unique-delete_where p (x ∷ xs) h =
      ground (arith, Unique-delete_where p xs h.1, All-delete_where (λ y. key x ≢ key y) p xs h.0)

  -- An update that leaves the key alone keeps the keys different.
  All-ne-update_where :
      (k : K) (p : A → Bool) (f : A → A) (xs : List A)
      → ((a : A) → key (f a) ≡ key a)
      → All (λ y. k ≢ key y) xs
      → All (λ y. k ≢ key y) (update_where p f xs)
  All-ne-update_where k p f xs e = All-update_where (λ y. k ≢ key y) p f xs (λ a n q. n (q ∙ e a))

  key_if : (b : Bool) (f : A → A) (x : A) → key (f x) ≡ key x → key (if b then f x else x) ≡ key x
  key_if true f x e = e
  key_if false f x e = refl

  pub Unique-update_where :
      (p : A → Bool) (f : A → A) (xs : List A)
      → ((a : A) → key (f a) ≡ key a)
      → Unique xs
      → Unique (update_where p f xs)
  unfolding update_where
  Unique-update_where p f [] e h = tt
  Unique-update_where p f (x ∷ xs) e h = (
    subst (λ k. All (λ y. k ≢ key y) (update_where p f xs)) (sym (key_if (p x) f x (e x)))
        (All-ne-update_where (key x) p f xs e h.0),
    Unique-update_where p f xs e h.1,
  )

  -- A row with a new key may be added at the end.
  pub Unique-snoc :
      (xs : List A) (x : A) → Unique xs → All (λ y. key x ≢ key y) xs → Unique (xs ++ x ∷ [])
  Unique-snoc [] x h n = (tt, tt)
  Unique-snoc (y ∷ xs) x h n = (
    All-append (λ z. key y ≢ key z) xs (x ∷ []) h.0 ((λ e. n.0 (sym e)), tt),
    Unique-snoc xs x h.1 n.1,
  )
