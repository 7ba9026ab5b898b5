-- ===== src/Base/Scopes.antt =====
-- Sets of tokens (`frozenset` of scope strings, lists of artifact ids) as lists.
use Prim.Native.Nat.{ℕ}
use mathlib.Core.Path.{◌≡◌, refl}
use mathlib.Core.Bool.{Bool, true, false, ◌||◌, ◌&&◌}
use mathlib.Core.List.{List, [], ◌∷◌}
use native.Mathlib.Omega.{arith}
use http_harness.Base.Tests.{◌==◌, if◌then◌else◌}

abbrev pub member : ℕ → List ℕ → Bool
member a [] = false
member a (x ∷ xs) = a == x || member a xs

abbrev pub intersection : List ℕ → List ℕ → List ℕ
intersection [] ys = []
intersection (x ∷ xs) ys = if member x ys then x ∷ intersection xs ys else intersection xs ys

abbrev pub list_eq : List ℕ → List ℕ → Bool
list_eq [] [] = true
list_eq [] (_ ∷ _) = false
list_eq (_ ∷ _) [] = false
list_eq (x ∷ xs) (y ∷ ys) = x == y && list_eq xs ys

pub member-intersection :
    (a : ℕ) (xs ys : List ℕ) → member a (intersection xs ys) ≡ (member a xs && member a ys)
member-intersection a [] ys = refl
member-intersection a (x ∷ xs) ys = ground (arith, member-intersection a xs ys)
