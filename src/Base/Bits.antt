-- ===== src/Base/Bits.antt =====
-- Laws of the bit operations at variables: masks of low bits and disjoint fields, at every width.
mod Step
use Prim.Native.Nat.{
  ℕ, zero, suc, ◌+◌, ◌-◌, ◌*◌, ◌/◌, ◌%◌, ◌^◌, ◌≤◌, ◌<◌, bit_and, bit_or, bit_xor, bit_or-bitwise,
  bit_and-bitwise,
}
use mathlib.Core.Path.{◌≡◌, refl, ap, ap₂, ◌∙◌}
use native.Mathlib.Nat.{pow-suc, one-le-pow}
use native.Mathlib.Omega.{arith}
use Step.{bit_and_digit, bit_or_digit, bit_xor_digit}

or_zero_fuel : (n a : ℕ) → a ≤ n → bit_or a 0 ≡ a
or_zero_fuel n zero h = refl
or_zero_fuel zero (suc a) h = absurd (omega arith)
or_zero_fuel (suc n) (suc a) h =
    omega (arith, bit_or_digit (suc a) 0, or_zero_fuel n (suc a / 2) (omega arith))

and_zero_fuel : (n a : ℕ) → a ≤ n → bit_and a 0 ≡ 0
and_zero_fuel n zero h = refl
and_zero_fuel zero (suc a) h = absurd (omega arith)
and_zero_fuel (suc n) (suc a) h =
    omega (arith, bit_and_digit (suc a) 0, and_zero_fuel n (suc a / 2) (omega arith))

pub bit_or-zero : (a : ℕ) → bit_or a 0 ≡ a
bit_or-zero a = or_zero_fuel a a (omega arith)

pub bit_and-zero : (a : ℕ) → bit_and a 0 ≡ 0
bit_and-zero a = and_zero_fuel a a (omega arith)

double_field : (q k : ℕ) → q * 2 ^ suc k ≡ 2 * (q * 2 ^ k)
double_field q k = omega (arith, ap (λ (t : ℕ). q * t) (pow-suc 2 k))

and_low_bits : (k q r : ℕ) → r < 2 ^ k → bit_and (q * 2 ^ k + r) (2 ^ k - 1) ≡ r
and_low_bits zero q r h = omega (arith, bit_and-zero (q * 2 ^ zero + r))
and_low_bits (suc k) q r h = ground (
  arith,
  bit_and_digit (q * 2 ^ suc k + r) (2 ^ suc k - 1),
  double_field q k,
  pow-suc 2 k,
  one-le-pow k 2,
  and_low_bits k q (r / 2) (omega (arith, pow-suc 2 k)),
)

-- `x & ((1 << k) - 1)` keeps the low k bits.
pub bit_and_mask : (k a : ℕ) → bit_and a (2 ^ k - 1) ≡ a % 2 ^ k
bit_and_mask k a = ground (arith, one-le-pow k 2, and_low_bits k (a / 2 ^ k) (a % 2 ^ k))

-- `(q << k) | r` is a sum when r has at most k bits.
pub bit_or_fields : (k q r : ℕ) → r < 2 ^ k → bit_or (q * 2 ^ k) r ≡ q * 2 ^ k + r
bit_or_fields zero q r h = ground (arith, bit_or-zero q)
bit_or_fields (suc k) q r h = ground (
  arith,
  bit_or_digit (q * 2 ^ suc k) r,
  double_field q k,
  bit_or_fields k q (r / 2) (omega arith),
)

-- The same for a number that is known to end in k clear bits.
pub bit_or_disjoint : (k q r a : ℕ) → a ≡ q * 2 ^ k → r < 2 ^ k → bit_or a r ≡ a + r
bit_or_disjoint k q r a e h = rw e (bit_or_fields k q r h)

-- The same with the low field first.
pub low-bit_or : (k q r : ℕ) → r < 2 ^ k → bit_or r (q * 2 ^ k) ≡ q * 2 ^ k + r
low-bit_or zero q zero h = omega (arith, bit_or-bitwise 0 (q * 2 ^ zero))
low-bit_or zero q (suc r) h = absurd (omega arith)
low-bit_or (suc k) q r h = ground (
  arith,
  bit_or_digit r (q * 2 ^ suc k),
  double_field q k,
  low-bit_or k q (r / 2) (omega (arith, pow-suc 2 k)),
)

pub bit_and-one : (a : ℕ) → bit_and a 1 ≡ a % 2
bit_and-one a = bit_and_mask 1 a

-- `x & (1 << k)` of a value with k bits under its top bit t keeps the top bit.
pub bit_and_top : (k t r : ℕ) → t < 2 → r < 2 ^ k → bit_and (t * 2 ^ k + r) (2 ^ k) ≡ t * 2 ^ k
bit_and_top zero t r p h = omega (arith, bit_and-one (t * 2 ^ zero + r))
bit_and_top (suc k) t r p h = ground (
  arith,
  bit_and_digit (t * 2 ^ suc k + r) (2 ^ suc k),
  double_field t k,
  pow-suc 2 k,
  bit_and_top k t (r / 2),
)

-- A mask whose low k bits are clear clears the low k bits.
pub bit_and_high :
    (k q r m : ℕ) → r < 2 ^ k → bit_and (q * 2 ^ k + r) (m * 2 ^ k) ≡ bit_and q m * 2 ^ k
bit_and_high zero q r m h = ap₂ bit_and {y = q} {v = m} (omega arith) (omega arith) ∙ omega arith
bit_and_high (suc k) q r m h = ground (
  arith,
  bit_and_digit (q * 2 ^ suc k + r) (m * 2 ^ suc k),
  double_field q k,
  double_field m k,
  double_field (bit_and q m) k,
  pow-suc 2 k,
  bit_and_high k q (r / 2) m,
)

-- Numbers of k bits give numbers of k bits.
pub bit_or-bound : (k a b : ℕ) → a < 2 ^ k → b < 2 ^ k → bit_or a b < 2 ^ k
bit_or-bound zero a b p q =
    omega
      (arith, ap₂ bit_or {x = a} {y = 0} {u = b} {v = 0} (omega arith) (omega arith), bit_or-zero 0)
bit_or-bound (suc k) a b p q = ground (
  arith,
  bit_or_digit a b,
  pow-suc 2 k,
  bit_or-bound k (a / 2) (b / 2) (omega (arith, pow-suc 2 k)) (omega (arith, pow-suc 2 k)),
)

pub bit_xor-bound : (k a b : ℕ) → a < 2 ^ k → b < 2 ^ k → bit_xor a b < 2 ^ k
bit_xor-bound zero a b p q =
    omega (arith, ap₂ bit_xor {x = a} {y = 0} {u = b} {v = 0} (omega arith) (omega arith), xor_zero)
  where
    xor_zero : bit_xor 0 0 ≡ 0
    xor_zero = refl
bit_xor-bound (suc k) a b p q = omega (
  arith,
  bit_xor_digit a b,
  pow-suc 2 k,
  bit_xor-bound k (a / 2) (b / 2) (omega (arith, pow-suc 2 k)) (omega (arith, pow-suc 2 k)),
)

and_le_fuel : (n a b : ℕ) → a ≤ n → bit_and a b ≤ a
and_le_fuel n zero b h = omega (arith, and_zero_left b)
  where
    and_zero_left : (b : ℕ) → bit_and 0 b ≡ 0
    and_zero_left b = bit_and-bitwise 0 b
and_le_fuel zero (suc a) b h = absurd (omega arith)
and_le_fuel (suc n) (suc a) b h =
    ground (arith, bit_and_digit (suc a) b, and_le_fuel n (suc a / 2) (b / 2) (omega arith))

pub bit_and-le : (a b : ℕ) → bit_and a b ≤ a
bit_and-le a b = and_le_fuel a a b (omega arith)
