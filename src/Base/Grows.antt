-- ===== src/Base/Grows.antt =====
-- How a table may change: no row disappears, and each row is related to its successor.
use http_harness.Base.Tests.{◌==◌, ==→eq, Bool-cases}
use http_harness.Base.Table.{
  Table, lookup, insert, update_where, lookup-insert, lookup-update_where,
}
use Prim.Native.Nat.{ℕ}
use mathlib.Core.Path.{◌≡◌, subst}
use mathlib.Core.Logic.{inl, inr}
use mathlib.Core.Bool.{Bool, true}
use mathlib.Core.Option.{none, some}
use native.Mathlib.Omega.{arith}

pub record Grows {ℓ} {A : Type ℓ} (R : A → A → Type 0) (t t' : Table A) : Type ℓ where
  pub at : (k : ℕ) (a : A) → lookup k t ≡ some a → (b : A) × (lookup k t' ≡ some b) × R a b

module _ {ℓ} {A : Type ℓ} {R : A → A → Type 0} where
  pub Grows-refl : ((a : A) → R a a) → (t : Table A) → Grows R t t
  Grows-refl r t = record { at = λ k a e. (a, e, r a) }

  pub Grows-trans :
      ((a b c : A) → R a b → R b c → R a c)
      → (t t' t'' : Table A) → Grows R t t'
      → Grows R t' t''
      → Grows R t t''
  Grows-trans tr t t' t'' g h = record {
    at = λ k a e.
        let (b, eb, ab) = g.at k a e in let (c, ec, bc) = h.at k b eb in (c, ec, tr a b c ab bc);
  }

  pub Grows-insert :
      ((a : A) → R a a)
      → (k : ℕ) (old new : A) (t : Table A) → lookup k t ≡ some old
      → R old new
      → Grows R t (insert k new t)
  Grows-insert r k old new t found step = record {
    at = λ j a e. elim (Bool-cases (k == j)) [
      | inl same ↦ (
        new,
        ground (arith, lookup-insert k j new t),
        subst (λ b. R b new) (ground (arith, ==→eq k j same)) step,
      )
      | inr other ↦ (a, ground (arith, lookup-insert k j new t), r a)
    ];
  }

  pub Grows-insert_new :
      ((a : A) → R a a)
      → (k : ℕ) (new : A) (t : Table A) → lookup k t ≡ none
      → Grows R t (insert k new t)
  Grows-insert_new r k new t absent = record {
    at = λ j a e. (a, ground (arith, lookup-insert k j new t), r a);
  }

  pub Grows-update_where :
      (test : A → Bool) (f : A → A)
      → ((a : A) → R a a)
      → ((a : A) → test a ≡ true → R a (f a))
      → (t : Table A) → Grows R t (update_where test f t)
  Grows-update_where test f r step t = record {
    at = λ k a e. elim (Bool-cases (test a)) [
      | inl hit ↦ (f a, ground (arith, lookup-update_where test f k t), step a hit)
      | inr miss ↦ (a, ground (arith, lookup-update_where test f k t), r a)
    ];
  }
