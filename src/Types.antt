-- ===== src/Types.antt =====
-- include/common/types.hpp: words and their bit fields, and ROB tags. A fixed-width unsigned
-- integer is the natural number that it holds; operations that can leave the range wrap.
pub mod Laws
pub mod Tags
use risc_v_cpu_simulator.Base.{ℕ, ◌+◌, ◌-◌, ◌*◌, ◌/◌, ◌%◌, ◌^◌, bit_and, bit_or}
use risc_v_cpu_simulator.Base.{Bool, true, false, ◌&&◌, ◌||◌}
use risc_v_cpu_simulator.Base.{ltb, leb, ◌==◌, ◌!=◌, bool_eq, if◌then◌else◌}

-- `Word`, `Address` and `InstructionBits` are `uint32_t`.
abbrev pub word_mod : ℕ
word_mod = 2 ^ 32

abbrev pub max_word : ℕ
max_word = 0xffff_ffff

-- `lhs + rhs` and `lhs - rhs` on `uint32_t`.
abbrev pub add32 : ℕ → ℕ → ℕ
add32 a b = (a + b) % word_mod

abbrev pub sub32 : ℕ → ℕ → ℕ
sub32 a b = (a + word_mod - b) % word_mod

-- `value << amount` and `value >> amount` on `uint32_t`, for amounts below 32.
abbrev pub shl32 : ℕ → ℕ → ℕ
shl32 value amount = value * 2 ^ amount % word_mod

abbrev pub shr32 : ℕ → ℕ → ℕ
shr32 value amount = value / 2 ^ amount

-- `~value`
abbrev pub not32 : ℕ → ℕ
not32 value = max_word - value

-- `++n` and `--n` on `size_t`.
abbrev pub inc_size : ℕ → ℕ
inc_size n = (n + 1) % 2 ^ 64

abbrev pub dec_size : ℕ → ℕ
dec_size n = (n + 2 ^ 64 - 1) % 2 ^ 64

pub record RobTag : Type 0 where
  pub index : ℕ
  pub generation : ℕ
  pub valid : Bool

-- `RobTag{}`
abbrev pub no_tag : RobTag
no_tag = record { index = 0; generation = 0; valid = false }

-- `operator==` on tags.
unfoldable pub tag_eq : RobTag → RobTag → Bool
tag_eq lhs rhs =
    lhs.index == rhs.index && lhs.generation == rhs.generation && bool_eq lhs.valid rhs.valid

unfoldable pub bit_mask : ℕ → ℕ
bit_mask bit_width =
    if bit_width == 0
    then 0
    else (if leb 32 bit_width then max_word else (sub32 (shl32 1 bit_width) 1))

unfoldable pub get_bit : ℕ → ℕ → Bool
get_bit value position = ltb position 32 && bit_and (shr32 value position) 1 != 0

unfoldable pub extract_bits : ℕ → ℕ → ℕ → ℕ
extract_bits value high low =
    if leb 32 low || ltb high low
    then 0
    else (let bounded_high = if ltb high 32 then high else 31 in
        let width = bounded_high - low + 1 in bit_and (shr32 value low) (bit_mask width))

unfoldable pub sign_extend : ℕ → ℕ → ℕ
sign_extend value bit_width =
    if bit_width == 0
    then 0
    else (if leb 32 bit_width
        then value
        else (let narrowed = bit_and value (bit_mask bit_width) in
            let sign_bit = shl32 1 (bit_width - 1) in
            if bit_and narrowed sign_bit != 0
            then bit_or narrowed (not32 (bit_mask bit_width))
            else narrowed))

unfoldable pub zero_extend : ℕ → ℕ → ℕ
zero_extend value bit_width = bit_and value (bit_mask bit_width)
