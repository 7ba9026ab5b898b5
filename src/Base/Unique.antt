-- ===== src/Base/Unique.antt =====
-- Tables in which every primary key stands once.
use http_harness.Base.Tests.{◌==◌}
use http_harness.Base.Table.{
  Table, lookup, insert, update_where, lookup-insert, lookup-update_where,
}
use Prim.Native.Nat.{ℕ}
use mathlib.Core.Path.{◌≡◌, refl}
use mathlib.Core.Bool.{Bool, false}
use mathlib.Core.Option.{none}
use mathlib.Core.List.{[], ◌∷◌}
use native.Mathlib.Omega.{arith}

module _ {ℓ} {A : Type ℓ} where
  abbrev pub HasUniqueKeys : Table A → Type ℓ
  HasUniqueKeys [] = Unit
  HasUniqueKeys ((k, r) ∷ t) = (lookup k t ≡ none) × HasUniqueKeys t

  lookup-insert-none :
      (j k : ℕ) (row : A) (t : Table A)
      → (k == j) ≡ false
      → lookup j t ≡ none
      → lookup j (insert k row t) ≡ none
  lookup-insert-none j k row t h e = ground (arith, lookup-insert k j row t)

  pub insert-HasUniqueKeys :
      (k : ℕ) (row : A) (t : Table A) → HasUniqueKeys t → HasUniqueKeys (insert k row t)
  unfolding insert lookup
  insert-HasUniqueKeys k row [] u = (refl, tt)
  insert-HasUniqueKeys k row ((j, r) ∷ t) u =
      ground (arith, insert-HasUniqueKeys k row t u.1, lookup-insert-none j k row t)

  lookup-update_where-none :
      (test : A → Bool) (f : A → A) (k : ℕ) (t : Table A)
      → lookup k t ≡ none
      → lookup k (update_where test f t) ≡ none
  lookup-update_where-none test f k t h = rw (lookup-update_where test f k t, h)

  pub update_where-HasUniqueKeys :
      (test : A → Bool) (f : A → A) (t : Table A)
      → HasUniqueKeys t
      → HasUniqueKeys (update_where test f t)
  unfolding update_where
  update_where-HasUniqueKeys test f [] u = tt
  update_where-HasUniqueKeys test f ((j, r) ∷ t) u =
      (lookup-update_where-none test f j t u.0, update_where-HasUniqueKeys test f t u.1)
