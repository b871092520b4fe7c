-- ===== src/Base/Int.antt =====
-- Go's `int` and `int64`: integers over the native numbers, and their wrap-around at 64 bits.
use Prim.Native.Nat.{ℕ, suc, ◌+◌, ◌-◌, ◌*◌, ◌%◌, ◌^◌, ◌≤◌, ◌<◌}
use mathlib.Core.Path.{◌≡◌, ap}
use mathlib.Core.Logic.{◌↔◌}
use mathlib.Core.Bool.{Bool, true, false}
use native.Mathlib.Omega.{arith}
use truebearing.Base.Tests.{ltb, leb, if◌then◌else◌}

-- `negsuc n` is -(n + 1).
pub data ℤ : Type 0 where
  pos : ℕ → ℤ
  negsuc : ℕ → ℤ

abbrev pub pos_part : ℤ → ℕ
pos_part (pos n) = n
pos_part (negsuc n) = 0

abbrev pub neg_part : ℤ → ℕ
neg_part (pos n) = 0
neg_part (negsuc n) = suc n

-- The integer that is `m` less `n`.
abbrev pub sub_ℕ : ℕ → ℕ → ℤ
sub_ℕ m n = if leb n m then pos (m - n) else negsuc (n - m - 1)

abbrev pub leb_ℤ : ℤ → ℤ → Bool
leb_ℤ m n = leb (pos_part m + neg_part n) (pos_part n + neg_part m)

abbrev pub ltb_ℤ : ℤ → ℤ → Bool
ltb_ℤ m n = ltb (pos_part m + neg_part n) (pos_part n + neg_part m)

abbrev pub eqb_ℤ : ℤ → ℤ → Bool
eqb_ℤ m n = if leb_ℤ m n then leb_ℤ n m else false

infix 50 ◌≤ℤ◌ ◌<ℤ◌
abbrev pub ◌≤ℤ◌ : ℤ → ℤ → Type 0
m ≤ℤ n = pos_part m + neg_part n ≤ pos_part n + neg_part m

abbrev pub ◌<ℤ◌ : ℤ → ℤ → Type 0
m <ℤ n = suc (pos_part m + neg_part n) ≤ pos_part n + neg_part m

infixl 65 ◌+ℤ◌
infixl 70 ◌*ℤ◌
unfoldable pub ◌+ℤ◌ : ℤ → ℤ → ℤ
m +ℤ n = sub_ℕ (pos_part m + pos_part n) (neg_part m + neg_part n)

unfoldable pub ◌*ℤ◌ : ℤ → ℤ → ℤ
m *ℤ n =
    sub_ℕ (pos_part m * pos_part n + neg_part m * neg_part n)
      (pos_part m * neg_part n + neg_part m * pos_part n)

unfoldable pub neg : ℤ → ℤ
neg m = sub_ℕ (neg_part m) (pos_part m)

-- The residue modulo 2^64, from 0 up.
unfoldable pub residue64 : ℤ → ℕ
residue64 (pos n) = n % 2 ^ 64
residue64 (negsuc n) = 2 ^ 64 - 1 - n % 2 ^ 64

-- Conversion of an exact result to `int64`, in two's complement.
unfoldable pub int64 : ℤ → ℤ
unfolding residue64
int64 m = let r = residue64 m in if ltb r (2 ^ 63) then pos r else negsuc (2 ^ 64 - 1 - r)

pub leb_ℤ_iff : (m n : ℤ) → (leb_ℤ m n ≡ true) ↔ (m ≤ℤ n)
leb_ℤ_iff m n = ground arith

-- An exact result in range is not changed by the conversion.
pub int64_id : (m : ℤ) → pos_part m < 2 ^ 63 → neg_part m ≤ 2 ^ 63 → int64 m ≡ m
unfolding int64
int64_id (pos n) h k = ground arith
int64_id (negsuc n) h k = ground arith

pub eqb_ℤ_iff : (m n : ℤ) → (eqb_ℤ m n ≡ true) ↔ (m ≡ n)
eqb_ℤ_iff (pos m) (pos n) = (λ h. ap pos (ground (arith, h)), λ e. ground (arith, ap pos_part e))
eqb_ℤ_iff (pos m) (negsuc n) =
    (λ h. ground (arith, h), λ e. ground (arith, ap pos_part e, ap neg_part e))
eqb_ℤ_iff (negsuc m) (pos n) =
    (λ h. ground (arith, h), λ e. ground (arith, ap pos_part e, ap neg_part e))
eqb_ℤ_iff (negsuc m) (negsuc n) =
    (λ h. ap negsuc (ground (arith, h)), λ e. ground (arith, ap neg_part e))
