-- ===== src/Base/Ensures.antt =====
-- Results of operations that may raise, and postconditions of them.
use mathlib.Core.Path.{◌≡◌, refl, subst}
use mathlib.Core.Bool.{Bool, true, false}
use mathlib.Core.Option.{Option, none, some}
use http_harness.Domain.Errors.{Error}

pub data Result {ℓ} (A : Type ℓ) : Type ℓ where
  ok : A → Result A
  err : Error → Result A

-- `if not test: raise e`
unfoldable pub guard : Bool → Error → Result (Unit {0})
guard true e = ok tt
guard false e = err e

-- `if value is None: raise e`
unfoldable pub require {ℓ} : {A : Type ℓ} → Option A → Error → Result A
require none e = err e
require (some a) e = ok a

-- The conditional of transactions: shut, as is `>>=` and for the same reason.
infix 1 when◌then◌otherwise◌
unfoldable pub when◌then◌otherwise◌ {ℓ} : {A : Type ℓ} → Bool → A → A → A
when true then x otherwise _ = x
when false then _ otherwise y = y

-- Shut, so that a proof can follow the steps of an operation one by one; to open it opens the
-- three above too.
infixl 5 ◌>>=◌ ◌>>◌
unfoldable pub ◌>>=◌ {ℓ κ} : {B : Type ℓ} {A : Type κ} → Result B → (B → Result A) → Result A
unfolding guard require when◌then◌otherwise◌
err raised >>= next = err raised
ok value >>= next = next value

abbrev pub ◌>>◌ {ℓ} : {A : Type ℓ} → Result (Unit {0}) → Result A → Result A
first >> rest = first >>= λ _. rest

-- Whatever the operation returns satisfies `P`; a raise rolls the transaction back.
pub record Ensures {ℓ κ} {A : Type ℓ} (P : A → Type κ) (r : Result A) : Type (ℓ ⊔ κ) where
  pub at : (a : A) → r ≡ ok a → P a

module _ {ℓ κ} {A : Type ℓ} (P : A → Type κ) where
  pub Ensures-ok : (a : A) → P a → Ensures P (ok a)
  Ensures-ok a p = record { at = λ b e. subst P (cc) p }

  pub Ensures-err : (e : Error) → Ensures P (err e)
  Ensures-err e = record { at = λ b h. absurd (cc) }

  pub Ensures-when :
      (b : Bool) (m n : Result A)
      → (b ≡ true → Ensures P m)
      → (b ≡ false → Ensures P n)
      → Ensures P (when b then m otherwise n)
  unfolding when◌then◌otherwise◌
  Ensures-when true m n km kn = km refl
  Ensures-when false m n km kn = kn refl

  pub Ensures-bind {μ} :
      {B : Type μ} (m : Result B) (f : B → Result A)
      → ((b : B) → m ≡ ok b → Ensures P (f b))
      → Ensures P (m >>= f)
  unfolding ◌>>=◌
  Ensures-bind (ok b) f k = k b refl
  Ensures-bind (err e) f k = Ensures-err e

  pub Ensures-guard :
      (b : Bool) (e : Error) (n : Result A) → (b ≡ true → Ensures P n) → Ensures P (guard b e >> n)
  unfolding ◌>>=◌
  Ensures-guard true e n k = k refl
  Ensures-guard false e n k = Ensures-err e

  pub Ensures-require {μ} :
      {B : Type μ} (o : Option B) (e : Error) (f : B → Result A)
      → ((b : B) → o ≡ some b → Ensures P (f b))
      → Ensures P (require o e >>= f)
  unfolding ◌>>=◌
  Ensures-require none e f k = Ensures-err e
  Ensures-require (some b) e f k = k b refl
