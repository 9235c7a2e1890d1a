-- ===== src/Base/Space.antt =====
-- An address space, or an array from its first element on: what each index holds.
use Prim.Native.Nat.{ℕ}
use mathlib.Core.Path.{◌≡◌}
use mathlib.Core.Logic.{◌≢◌}
use native.Mathlib.Omega.{arith}
use sector_os_re.Base.Tests.{◌==◌, if◌then◌else◌}

abbrev pub Memory : Type 0
Memory = ℕ → ℕ

abbrev pub update {ℓ} : {A : Type ℓ} → (ℕ → A) → ℕ → A → ℕ → A
update m a v b = if b == a then v else m b

pub update_self {ℓ} : {A : Type ℓ} (m : ℕ → A) (a : ℕ) (v : A) → update m a v a ≡ v
update_self m a v = ground arith

pub update_ne {ℓ} : {A : Type ℓ} (m : ℕ → A) (a : ℕ) (v : A) (b : ℕ) → b ≢ a → update m a v b ≡ m b
update_ne m a v b h = ground arith
