-- ===== src/Common/Checked.antt =====
-- Computations that may stop: `none` is a failed assertion, or an access outside an array.
use mathlib.Core.Option.{Option, none, some}
use mathlib.Core.Bool.{Bool, true, false}

infixl 5 ◌>>=◌
abbrev pub ◌>>=◌ {ℓ κ} : {A : Type ℓ} {B : Type κ} → Option A → (A → Option B) → Option B
none >>= f = none
some a >>= f = f a

-- CHFS_ASSERT and CHFS_VERIFY.
abbrev pub verify {ℓ} : {A : Type ℓ} → Bool → Option A → Option A
verify true k = k
verify false k = none

-- The result of a search, or else that of the search that goes on where it ended.
abbrev pub otherwise {ℓ} : {A : Type ℓ} → Option A → Option (Option A) → Option (Option A)
otherwise (some a) rest = some (some a)
otherwise none rest = rest
