-- ===== src/Common/Bug.antt =====
-- `BUG_ON(c)` of the kernel. Whether a condition that holds stops the caller is a parameter of the
-- model, `traps`: a kernel stops there, a build with the checks compiled out goes on.
use mathlib.Core.Bool.{Bool, ◌&&◌}
use kns.Common.Tests.{if◌then◌else◌}

-- What a call comes to: a value, or the stop at a `BUG_ON`.
pub data Run {ℓ} (A : Type ℓ) : Type ℓ where
  done : A → Run A
  bug : Run A

infixl 5 ◌>>=◌ ◌>>◌
abbrev pub ◌>>=◌ {ℓ κ} : {A : Type ℓ} {B : Type κ} → Run A → (A → Run B) → Run B
done a >>= f = f a
bug >>= f = bug

abbrev pub ◌>>◌ {ℓ} : {B : Type ℓ} → Run (Unit {0}) → Run B → Run B
m >> k = m >>= λ _. k

abbrev pub bug_on : Bool → Bool → Run (Unit {0})
bug_on traps c = if traps && c then bug else done tt
