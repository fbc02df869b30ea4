-- ===== src/Base/Maps.antt =====
-- Go maps with string keys: association lists in which a key stands at most once.
use Prim.Native.Nat.{◌≤◌}
use mathlib.Core.Path.{◌≡◌, refl, sym, ap₂, subst}
use mathlib.Core.Logic.{◌≢◌, inl, inr}
use mathlib.Core.Bool.{Bool}
use mathlib.Core.Option.{Option, none, some}
use mathlib.Core.List.{List, [], ◌∷◌}
use native.Mathlib.Omega.{arith}
use lxc_hosting.Base.Tests.{if◌then◌else◌, Bool-cases}
use lxc_hosting.Base.Lists.{length}
use lxc_hosting.Base.Rows.{All, All-delete_where, delete_where, Unique}
use lxc_hosting.Base.Texts.{Text, text_eq, text_eq_iff}

abbrev pub Map {ℓ} : Type ℓ → Type ℓ
Map V = List (Text × V)

module _ {ℓ} {V : Type ℓ} where
  unfoldable pub get : Text → Map V → Option V
  get k [] = none
  get k ((j, v) ∷ m) = if text_eq j k then some v else get k m

  unfoldable pub put : Text → V → Map V → Map V
  put k v [] = (k, v) ∷ []
  put k v ((j, w) ∷ m) = if text_eq j k then (k, v) ∷ m else (j, w) ∷ put k v m

  unfoldable pub remove : Text → Map V → Map V
  remove k [] = []
  remove k ((j, w) ∷ m) = let rest = remove k m in if text_eq j k then rest else (j, w) ∷ rest

  pub get-put :
      (k j : Text) (v : V) (m : Map V)
      → get j (put k v m) ≡ (if text_eq k j then some v else get j m)
  unfolding get put
  get-put k j v [] = refl
  get-put k j v ((i, w) ∷ m) =
      ground (arith, text_eq_iff k j, text_eq_iff i k, text_eq_iff i j, get-put k j v m)

  pub get-remove :
      (k j : Text) (m : Map V) → get j (remove k m) ≡ (if text_eq k j then none else get j m)
  unfolding get remove
  get-remove k j [] = ground arith
  get-remove k j ((i, w) ∷ m) =
      ground (arith, text_eq_iff k j, text_eq_iff i k, text_eq_iff i j, get-remove k j m)

  pub length-remove-le : (k : Text) (m : Map V) → length (remove k m) ≤ length m
  unfolding remove
  length-remove-le k [] = omega arith
  length-remove-le k ((i, w) ∷ m) = ground (arith, length-remove-le k m)

-- The loops that delete from a map while they range over it. A key stands at most once.
module _ {ℓ} {V : Type ℓ} where
  abbrev pub Keys : Map V → Type ℓ
  Keys = Unique (λ (e : Text × V). e.0)

  get-absent : (k : Text) (m : Map V) → All (λ e. k ≢ e.0) m → get k m ≡ none
  unfolding get
  get-absent k [] h = refl
  get-absent k ((j, v) ∷ m) h =
      ground (arith, text_eq_iff j k, (λ (e : j ≡ k). h.0 (sym e)), get-absent k m h.1)

  pub get-delete_where :
      (p : Text × V → Bool) (k : Text) (v : V) (m : Map V)
      → Keys m
      → get k m ≡ some v
      → get k (delete_where p m) ≡ (if p (k, v) then none else some v)
  unfolding get delete_where
  get-delete_where p k v [] u h = cc
  get-delete_where p k v ((j, w) ∷ m) u h = elim (Bool-cases (text_eq j k)) [
    | inr f ↦ ground (arith, f, get-delete_where p k v m u.1)
    | inl t ↦
        let same = (text_eq_iff j k).0 t in
        let gone =
          get-absent k (delete_where p m)
            (All-delete_where (λ e. k ≢ e.0) p m (subst (λ i. All (λ e. i ≢ e.0) m) same u.0)) in
        let value : w ≡ v = ground (arith, t, h) in
        ground (arith, t, gone, ap₂ (λ i x. p (i, x)) same value, value)
  ]

  pub get-delete_absent :
      (p : Text × V → Bool) (k : Text) (m : Map V)
      → get k m ≡ none
      → get k (delete_where p m) ≡ none
  unfolding get delete_where
  get-delete_absent p k [] h = refl
  get-delete_absent p k ((j, w) ∷ m) h = ground (arith, get-delete_absent p k m)

  put-ne :
      (i k : Text) (v : V) (m : Map V)
      → i ≢ k
      → All (λ e. i ≢ e.0) m
      → All (λ e. i ≢ e.0) (put k v m)
  unfolding put
  put-ne i k v [] n h = (n, tt)
  put-ne i k v ((j, w) ∷ m) n h = ground (arith, put-ne i k v m n h.1)

  pub Keys-put : (k : Text) (v : V) (m : Map V) → Keys m → Keys (put k v m)
  unfolding put
  Keys-put k v [] u = (tt, tt)
  Keys-put k v ((j, w) ∷ m) u = elim (Bool-cases (text_eq j k)) [
    | inl t ↦ rw t (subst (λ i. All (λ e. i ≢ e.0) m) ((text_eq_iff j k).0 t) u.0, u.1)
    | inr f ↦ rw f (put-ne j k v m (λ e. cc (f, (text_eq_iff j k).1 e)) u.0, Keys-put k v m u.1)
  ]
