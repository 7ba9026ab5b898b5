-- ===== src/Base/Table.antt =====
-- A database table: its rows by primary key, in the order of their insertion.
use http_harness.Base.Tests.{◌==◌, if◌then◌else◌, ==→eq, Bool-cases}
use Prim.Native.Nat.{ℕ}
use mathlib.Core.Path.{◌≡◌, refl}
use mathlib.Core.Logic.{◌⊎◌, inl, inr}
use mathlib.Core.Bool.{Bool, false, ◌||◌}
use mathlib.Core.Option
use mathlib.Core.Option.{Option, none, some}
use mathlib.Core.List.{List, [], ◌∷◌}
use native.Mathlib.Omega.{arith}

abbrev pub Table {ℓ} : Type ℓ → Type ℓ
Table A = List (ℕ × A)

module _ {ℓ} {A : Type ℓ} where
  unfoldable pub lookup : ℕ → Table A → Option A
  lookup k [] = none
  lookup k ((j, a) ∷ t) = if j == k then some a else lookup k t

  -- Writes the row with this key, or adds it.
  unfoldable pub insert : ℕ → A → Table A → Table A
  insert k a [] = (k, a) ∷ []
  insert k a ((j, b) ∷ t) = if j == k then (k, a) ∷ t else (j, b) ∷ insert k a t

  -- `UPDATE … WHERE test`.
  unfoldable pub update_where : (A → Bool) → (A → A) → Table A → Table A
  update_where test f [] = []
  update_where test f ((j, a) ∷ t) = (j, if test a then f a else a) ∷ update_where test f t

  -- Whether some row passes the test.
  unfoldable pub any_row : (A → Bool) → Table A → Bool
  any_row test [] = false
  any_row test ((j, a) ∷ t) = test a || any_row test t

  pub lookup-insert :
      (k j : ℕ) (a : A) (t : Table A)
      → lookup j (insert k a t) ≡ (if k == j then some a else lookup j t)
  unfolding lookup insert
  lookup-insert k j a [] = refl
  lookup-insert k j a ((i, b) ∷ t) = ground (arith, lookup-insert k j a t)

  pub lookup-update_where :
      (test : A → Bool) (f : A → A) (k : ℕ) (t : Table A)
      → lookup k (update_where test f t) ≡ Option.map (λ a. if test a then f a else a) (lookup k t)
  unfolding lookup update_where
  lookup-update_where test f k [] = refl
  lookup-update_where test f k ((j, a) ∷ t) = ground (arith, lookup-update_where test f k t)

  pub any_row-lookup :
      (test : A → Bool) (k : ℕ) (a : A) (t : Table A)
      → any_row test t ≡ false
      → lookup k t ≡ some a
      → test a ≡ false
  unfolding lookup any_row
  any_row-lookup test k a [] h e = ground arith
  any_row-lookup test k a ((j, b) ∷ t) h e = ground (arith, any_row-lookup test k a t)

  -- A row found after a write is the row written, or was there under another key.
  pub lookup-insert_cases :
      (k j : ℕ) (a b : A) (t : Table A)
      → lookup j (insert k a t) ≡ some b
      → ((k ≡ j) × (b ≡ a)) ⊎ (((k == j) ≡ false) × (lookup j t ≡ some b))
  lookup-insert_cases k j a b t h = elim (Bool-cases (k == j)) [
    | inl same ↦ inl (==→eq k j same, ground (arith, lookup-insert k j a t))
    | inr other ↦ inr (other, ground (arith, lookup-insert k j a t))
  ]

  -- A new key leaves what is there.
  pub lookup-insert_kept :
      (k j : ℕ) (a b : A) (t : Table A)
      → lookup k t ≡ none
      → lookup j t ≡ some a
      → lookup j (insert k b t) ≡ some a
  lookup-insert_kept k j a b t free h = ground (arith, lookup-insert k j b t, ==→eq k j)
