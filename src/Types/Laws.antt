-- ===== src/Types/Laws.antt =====
-- What the bit fields of include/common/types.hpp are in arithmetic.
use risc_v_cpu_simulator.Base.{ℕ, zero, suc, ◌+◌, ◌-◌, ◌*◌, ◌/◌, ◌%◌, ◌^◌, ◌≤◌, ◌<◌, bit_and}
use risc_v_cpu_simulator.Base.{◌≡◌, refl, ap, ◌∙◌, arith, ltb, ◌==◌, if◌then◌else◌}
use native.Mathlib.Nat.{pow-le-pow_right, one-le-pow, pow-suc}
use risc_v_cpu_simulator.Base.Bits.{bit_and_mask, bit_and-one, bit_and_top, low-bit_or}
use risc_v_cpu_simulator.Types.{
  bit_mask, extract_bits, get_bit, sign_extend, zero_extend, word_mod, shl32,
}

-- `bit_mask(width)` for widths below 32.
pub bit_mask_pow : (w : ℕ) → w < 32 → bit_mask w ≡ 2 ^ w - 1
unfolding bit_mask
bit_mask_pow zero h = refl
bit_mask_pow (suc w) h = ground (
  arith,
  pow-le-pow_right {n = 2} (omega arith) {i = suc w} {j = 31} (omega arith),
  one-le-pow (suc w) 2,
)

pub extract_bits_field :
    (v h l : ℕ) → l ≤ h → h < 32 → h - l < 31 → extract_bits v h l ≡ (v / 2 ^ l) % 2 ^ (h - l + 1)
unfolding extract_bits
extract_bits_field v h l p q r =
    ground (arith, bit_mask_pow (h - l + 1), bit_and_mask (h - l + 1) (v / 2 ^ l))

pub get_bit_digit : (v p : ℕ) → p < 32 → get_bit v p ≡ (v / 2 ^ p % 2 == 1)
unfolding get_bit
get_bit_digit v p h = ground (arith, bit_and-one (v / 2 ^ p))

pub zero_extend_mod : (v w : ℕ) → w < 32 → zero_extend v w ≡ v % 2 ^ w
unfolding zero_extend
zero_extend_mod v w h = rw (bit_mask_pow w h) (bit_and_mask w v)

top_bit : (n k t r : ℕ) → n ≡ t * 2 ^ k + r → t < 2 → r < 2 ^ k → bit_and n (2 ^ k) ≡ t * 2 ^ k
top_bit n k t r e p h = ap (λ m. bit_and m (2 ^ k)) e ∙ bit_and_top k t r p h

low_top : (n k : ℕ) → n < 2 ^ k → bit_and n (2 ^ k) ≡ 0
low_top n k h = omega (arith, top_bit n k 0 n (omega arith) (omega arith) h)

high_top : (n k : ℕ) → 2 ^ k ≤ n → n < 2 ^ suc k → bit_and n (2 ^ k) ≡ 2 ^ k
high_top n k l h =
    omega
      (arith, top_bit n k 1 (n - 2 ^ k) (omega arith) (omega arith) (omega (arith, pow-suc 2 k)))

-- `sign_extend(v, w)` of the low w bits: as they are, or with all the higher bits set.
pub sign_extend_cases :
    (v k q : ℕ)
    → k < 31
    → q * 2 ^ suc k ≡ word_mod - 2 ^ suc k
    → sign_extend v (suc k) ≡ (
        if ltb (v % 2 ^ suc k) (2 ^ k)
        then v % 2 ^ suc k
        else v % 2 ^ suc k + (word_mod - 2 ^ suc k))
unfolding sign_extend
sign_extend_cases v k q h e =
    rw (bit_mask_pow (suc k) (omega arith), bit_and_mask (suc k) v, sub-suc, shl32_pow) ground
      (
        arith,
        one-le-pow k 2,
        pow-suc 2 k,
        pow-le-pow_right {n = 2} (omega arith) {i = k} {j = 30} (omega arith),
        low_top (v % 2 ^ suc k) k,
        high_top (v % 2 ^ suc k) k,
        low-bit_or (suc k) q (v % 2 ^ suc k),
      )
  where
    sub-suc : suc k - 1 ≡ k
    sub-suc = omega arith

    shl32_pow : shl32 1 k ≡ 2 ^ k
    shl32_pow = omega (arith, pow-le-pow_right {n = 2} (omega arith) {i = k} {j = 30} (omega arith))
