-- ===== src/Base/Finds.antt =====
-- Which rows are found after a statement.
use mathlib.Core.Path.{◌≡◌, refl, sym, ◌∙◌}
use mathlib.Core.Logic.{◌≢◌, inl, inr}
use mathlib.Core.Bool.{Bool, true, false}
use mathlib.Core.Option.{none, some}
use mathlib.Core.List.{List, [], ◌∷◌, ◌++◌}
use native.Mathlib.Omega.{arith}
use lxc_hosting.Base.Tests.{if◌then◌else◌, Bool-cases}
use lxc_hosting.Base.Rows.{
  first_where, update_where, delete_where, has_row, All, All-imp, All-delete_where, Unique,
}

-- Foreign keys: a referenced row stays there.
module _ {ℓ} {A : Type ℓ} (q : A → Bool) where
  pub has_row-append : (xs ys : List A) → has_row q xs ≡ true → has_row q (xs ++ ys) ≡ true
  unfolding has_row
  has_row-append [] ys h = cc
  has_row-append (x ∷ xs) ys h = ground (arith, has_row-append xs ys)

  pub has_row-update_where :
      (p : A → Bool) (f : A → A) (xs : List A)
      → ((a : A) → q (f a) ≡ q a)
      → has_row q (update_where p f xs) ≡ has_row q xs
  unfolding has_row update_where
  has_row-update_where p f [] e = refl
  has_row-update_where p f (x ∷ xs) e = ground (arith, e x, has_row-update_where p f xs e)

  pub has_row-delete_where :
      (p : A → Bool) (xs : List A)
      → ((a : A) → p a ≡ true → q a ≡ false)
      → has_row q (delete_where p xs) ≡ has_row q xs
  unfolding has_row delete_where
  has_row-delete_where p [] e = refl
  has_row-delete_where p (x ∷ xs) e = ground (arith, e x, has_row-delete_where p xs e)

  pub has_row-first_where : (xs : List A) {a : A} → first_where q xs ≡ some a → has_row q xs ≡ true
  unfolding has_row first_where
  has_row-first_where [] e = cc
  has_row-first_where (x ∷ xs) {a} e = ground (arith, has_row-first_where xs {a = a})

  pub first_where-has_row :
      (xs : List A) → has_row q xs ≡ true → (a : A) × (first_where q xs ≡ some a)
  unfolding has_row first_where
  first_where-has_row [] e = absurd (cc)
  first_where-has_row (x ∷ xs) e = elim (Bool-cases (q x)) [
    | inl h ↦ (x, rw h)
    | inr h ↦ let (a, f) = first_where-has_row xs (ground arith) in (a, rw h f)
  ]

-- Rows that a statement does not touch are found as before.
module _ {ℓ} {A : Type ℓ} (q p : A → Bool) where
  pub first_where-update_other :
      (f : A → A) (xs : List A)
      → ((x : A) → p x ≡ true → q x ≡ false)
      → ((x : A) → p x ≡ true → q (f x) ≡ false)
      → first_where q (update_where p f xs) ≡ first_where q xs
  unfolding first_where update_where
  first_where-update_other f [] h k = refl
  first_where-update_other f (x ∷ xs) h k =
      ground (arith, h x, k x, first_where-update_other f xs h k)

  pub first_where-delete_other :
      (xs : List A)
      → ((x : A) → p x ≡ true → q x ≡ false)
      → first_where q (delete_where p xs) ≡ first_where q xs
  unfolding first_where delete_where
  first_where-delete_other [] h = refl
  first_where-delete_other (x ∷ xs) h = ground (arith, h x, first_where-delete_other xs h)

  pub first_where-delete_same :
      (xs : List A) → ((x : A) → q x ≡ true → p x ≡ true) → first_where q (delete_where p xs) ≡ none
  unfolding first_where delete_where
  first_where-delete_same [] h = refl
  first_where-delete_same (x ∷ xs) h = ground (arith, h x, first_where-delete_same xs h)

module _ {ℓ} {A : Type ℓ} (q : A → Bool) where
  pub first_where-append_other :
      (xs : List A) (x : A) → q x ≡ false → first_where q (xs ++ x ∷ []) ≡ first_where q xs
  unfolding first_where
  first_where-append_other [] x h = ground arith
  first_where-append_other (y ∷ xs) x h = ground (arith, first_where-append_other xs x h)

  pub first_where-append_found :
      (xs ys : List A) {a : A} → first_where q xs ≡ some a → first_where q (xs ++ ys) ≡ some a
  unfolding first_where
  first_where-append_found [] ys e = cc
  first_where-append_found (x ∷ xs) ys {a} e =
      ground (arith, first_where-append_found xs ys {a = a})

module _ {ℓ} {A : Type ℓ} (q : A → Bool) where
  pub first_where-All : (xs : List A) → All (λ x. q x ≡ false) xs → first_where q xs ≡ none
  unfolding first_where
  first_where-All [] h = refl
  first_where-All (x ∷ xs) h = ground (arith, first_where-All xs h.1)

-- Deleting rows, where the test looks for a unique key.
module _ {ℓ κ} {A : Type ℓ} {K : Type κ} (key : A → K) (q p : A → Bool) (k : K) where
  others :
      (x : A) (xs : List A)
      → ((a : A) → q a ≡ true → key a ≡ k)
      → key x ≡ k
      → All (λ y. key x ≢ key y) xs
      → All (λ y. q y ≡ false) xs
  others x xs found e h =
      All-imp (λ y. key x ≢ key y) (λ y. q y ≡ false) xs
        (λ y n. elim (Bool-cases (q y)) [ inl t ↦ absurd (n (e ∙ sym (found y t))) | inr f ↦ f ]) h

  pub first_where-delete_unique :
      (xs : List A) (s : A)
      → ((a : A) → q a ≡ true → key a ≡ k)
      → Unique key xs
      → first_where q xs ≡ some s
      → first_where q (delete_where p xs) ≡ (if p s then none else some s)
  unfolding first_where delete_where
  first_where-delete_unique [] s found u e = cc
  first_where-delete_unique (x ∷ xs) s found u e = elim (Bool-cases (q x)) [
    | inr f ↦ ground (arith, f, first_where-delete_unique xs s found u.1)
    | inl t ↦
        let gone =
          first_where-All q (delete_where p xs)
            (All-delete_where (λ y. q y ≡ false) p xs (others x xs found (found x t) u.0)) in
        ground (arith, t, e, gone)
  ]
