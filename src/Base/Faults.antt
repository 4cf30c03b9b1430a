-- ===== src/Base/Faults.antt =====
-- What a run of C code gives: a value, or a fault. A fault is undefined behaviour: a read or write
-- outside an allocated block or through NULL or a freed pointer, or a read of an indeterminate value.
use mathlib.Core.Path.{◌≡◌, refl}

pub data Run {ℓ} (A : Type ℓ) : Type ℓ where
  fault : Run A
  ok : A → Run A

module _ {ℓ κ} {A : Type ℓ} {B : Type κ} where
  infixl 5 ◌>>=◌
  abbrev pub ◌>>=◌ : Run A → (A → Run B) → Run B
  fault >>= next = fault
  ok x >>= next = next x

  -- A run whose every continuation faults, faults.
  pub >>=-fault : (m : Run A) (next : A → Run B) → ((x : A) → next x ≡ fault) → (m >>= next) ≡ fault
  >>=-fault fault next h = refl
  >>=-fault (ok x) next h = h x

-- The run ends without a fault, in a value of which the predicate holds.
abbrev pub Returns {ℓ κ} : {A : Type ℓ} → Run A → (A → Type κ) → Type (ℓ ⊔ κ)
Returns {A} m Q = (x : A) × (m ≡ ok x) × Q x
