-- ===== src/Decoder/Fields.antt =====
-- The immediates of the five formats, in arithmetic.
use risc_v_cpu_simulator.Base.{ℕ, suc, ◌+◌, ◌-◌, ◌*◌, ◌/◌, ◌%◌, ◌^◌, ◌<◌, bit_and, bit_or}
use risc_v_cpu_simulator.Base.{
  ◌≡◌, refl, ap, ◌∙◌, arith, Bool, true, false, ltb, ◌==◌, ◌||◌, if_keeps, if◌then◌else◌,
}
use risc_v_cpu_simulator.Base.Bits.{bit_or_fields, bit_or_disjoint, bit_and_high, bit_and_mask}
use risc_v_cpu_simulator.Types.{extract_bits, sign_extend, word_mod, shl32}
use risc_v_cpu_simulator.Types.Laws.{extract_bits_field, get_bit_digit, sign_extend_cases}
use risc_v_cpu_simulator.Decoder.{decode_I_immediate, decode_S_immediate, decode_B_immediate}
use risc_v_cpu_simulator.Instruction.{DecodedInstruction, no_instruction, halt}
use risc_v_cpu_simulator.Decoder.{
  decode, decode_R_type, decode_I_type, decode_S_type, decode_B_type,
}
use risc_v_cpu_simulator.Decoder.{decode_U_type, decode_J_type}
use risc_v_cpu_simulator.Decoder.{decode_J_immediate, decode_U_immediate}

-- A value of width k + 1 bits whose top bit is spread over the word.
abbrev pub spread : ℕ → ℕ → ℕ
spread k n = if ltb n (2 ^ k) then n else n + (word_mod - 2 ^ suc k)

-- `sign_extend` at the five widths of the instruction set.
spread_12 : (v : ℕ) → sign_extend v 12 ≡ spread 11 (v % 2 ^ 12)
spread_12 v = sign_extend_cases v 11 (2 ^ 20 - 1) (omega arith) refl

spread_13 : (v : ℕ) → sign_extend v 13 ≡ spread 12 (v % 2 ^ 13)
spread_13 v = sign_extend_cases v 12 (2 ^ 19 - 1) (omega arith) refl

spread_21 : (v : ℕ) → sign_extend v 21 ≡ spread 20 (v % 2 ^ 21)
spread_21 v = sign_extend_cases v 20 (2 ^ 11 - 1) (omega arith) refl

pub decode_I_immediate_field : (b : ℕ) → decode_I_immediate b ≡ spread 11 (b / 2 ^ 20 % 2 ^ 12)
unfolding decode_I_immediate
decode_I_immediate_field b =
    rw (spread_12, extract_bits_field b 31 20 (omega arith) (omega arith) (omega arith))
      (ground arith)

-- The immediates of the S, B and J formats before their signs are spread.
abbrev pub s_bits : ℕ → ℕ
s_bits b = b / 2 ^ 25 % 2 ^ 7 * 2 ^ 5 + b / 2 ^ 7 % 2 ^ 5

abbrev pub b_bits : ℕ → ℕ
b_bits b =
    b / 2 ^ 31 % 2 * 2 ^ 12
    + b / 2 ^ 7 % 2 * 2 ^ 11
    + b / 2 ^ 25 % 2 ^ 6 * 2 ^ 5
    + b / 2 ^ 8 % 2 ^ 4 * 2

abbrev pub j_bits : ℕ → ℕ
j_bits b =
    b / 2 ^ 31 % 2 * 2 ^ 20
    + b / 2 ^ 12 % 2 ^ 8 * 2 ^ 12
    + b / 2 ^ 20 % 2 * 2 ^ 11
    + b / 2 ^ 21 % 2 ^ 10 * 2

pub decode_S_immediate_field : (b : ℕ) → decode_S_immediate b ≡ spread 11 (s_bits b)
unfolding decode_S_immediate
decode_S_immediate_field b =
    rw
      (
        spread_12,
        extract_bits_field b 31 25 (omega arith) (omega arith) (omega arith),
        extract_bits_field b 11 7 (omega arith) (omega arith) (omega arith),
      )
      (ground (arith, bit_or_fields 5 (b / 2 ^ 25 % 2 ^ 7) (b / 2 ^ 7 % 2 ^ 5)))

abbrev digit : Bool → ℕ
digit b = if b then 1 else 0

-- The `|=` chains of the B and J formats, as sums.
b_chain :
    (x y : Bool) (c d : ℕ)
    → c < 64
    → d < 16
    → (let with_12 = if x then bit_or 0 (shl32 1 12) else 0 in
        let with_11 = if y then bit_or with_12 (shl32 1 11) else with_12 in
        bit_or (bit_or with_11 (shl32 c 5)) (shl32 d 1))
      ≡ digit x * 2 ^ 12 + digit y * 2 ^ 11 + c * 2 ^ 5 + d * 2
b_chain x y c d p q = top (digit x * 2 + digit y) (with_11 x y) ∙ omega arith
  where
    with_11 :
        (x y : Bool)
        → (let with_12 = if x then bit_or 0 (shl32 1 12) else 0 in
            if y then bit_or with_12 (shl32 1 11) else with_12)
          ≡ (digit x * 2 + digit y) * 2 ^ 11
    with_11 true true = refl
    with_11 true false = refl
    with_11 false true = refl
    with_11 false false = refl

    top :
        (n : ℕ) {m : ℕ}
        → m ≡ n * 2 ^ 11
        → bit_or (bit_or m (shl32 c 5)) (shl32 d 1) ≡ n * 2 ^ 11 + c * 2 ^ 5 + d * 2
    top n {m} e = ground (
      arith,
      bit_or_disjoint 11 n (shl32 c 5) m,
      bit_or_disjoint 5 (n * 2 ^ 6 + c) (shl32 d 1) (m + c * 2 ^ 5),
    )

digit_of : (n : ℕ) → digit (n % 2 == 1) ≡ n % 2
digit_of n = ground arith

pub decode_B_immediate_field : (b : ℕ) → decode_B_immediate b ≡ spread 12 (b_bits b)
unfolding decode_B_immediate
decode_B_immediate_field b =
    rw
      (
        spread_13,
        get_bit_digit b 31 (omega arith),
        get_bit_digit b 7 (omega arith),
        extract_bits_field b 30 25 (omega arith) (omega arith) (omega arith),
        extract_bits_field b 11 8 (omega arith) (omega arith) (omega arith),
        b_chain (b / 2 ^ 31 % 2 == 1) (b / 2 ^ 7 % 2 == 1) (b / 2 ^ 25 % 2 ^ 6) (b / 2 ^ 8 % 2 ^ 4)
            (omega arith) (omega arith),
        digit_of (b / 2 ^ 31),
        digit_of (b / 2 ^ 7),
      )
      (ap (spread 12) {x = b_bits b % 2 ^ 13} {y = b_bits b} (omega arith))

j_chain :
    (x y : Bool) (c d : ℕ)
    → c < 256
    → d < 1024
    → (let with_20 = if x then bit_or 0 (shl32 1 20) else 0 in
        let with_19 = bit_or with_20 (shl32 c 12) in
        let with_11 = if y then bit_or with_19 (shl32 1 11) else with_19 in
        bit_or with_11 (shl32 d 1))
      ≡ digit x * 2 ^ 20 + c * 2 ^ 12 + digit y * 2 ^ 11 + d * 2
j_chain x y c d p q = above y (digit x * 2 ^ 8 + c) (with_19 x) ∙ omega arith
  where
    with_19 :
        (x : Bool)
        → bit_or (if x then bit_or 0 (shl32 1 20) else 0) (shl32 c 12)
          ≡ (digit x * 2 ^ 8 + c) * 2 ^ 12
    with_19 true = bit_or_disjoint 20 1 (shl32 c 12) (2 ^ 20) refl (omega arith) ∙ omega arith
    with_19 false = bit_or_disjoint 20 0 (shl32 c 12) 0 refl (omega arith) ∙ omega arith

    above :
        (y : Bool) (n : ℕ) {m : ℕ}
        → m ≡ n * 2 ^ 12
        → bit_or (if y then bit_or m (shl32 1 11) else m) (shl32 d 1)
          ≡ n * 2 ^ 12 + digit y * 2 ^ 11 + d * 2
    above true n {m} e = ground (
      arith,
      bit_or_disjoint 12 n (2 ^ 11) m,
      bit_or_disjoint 11 (n * 2 + 1) (shl32 d 1) (m + 2 ^ 11),
    )
    above false n {m} e = ground (arith, bit_or_disjoint 11 (n * 2) (shl32 d 1) m)

pub decode_J_immediate_field : (b : ℕ) → decode_J_immediate b ≡ spread 20 (j_bits b)
unfolding decode_J_immediate
decode_J_immediate_field b =
    rw
      (
        spread_21,
        get_bit_digit b 31 (omega arith),
        get_bit_digit b 20 (omega arith),
        extract_bits_field b 19 12 (omega arith) (omega arith) (omega arith),
        extract_bits_field b 30 21 (omega arith) (omega arith) (omega arith),
        j_chain (b / 2 ^ 31 % 2 == 1) (b / 2 ^ 20 % 2 == 1) (b / 2 ^ 12 % 2 ^ 8)
            (b / 2 ^ 21 % 2 ^ 10) (omega arith) (omega arith),
        digit_of (b / 2 ^ 31),
        digit_of (b / 2 ^ 20),
      )
      (ap (spread 20) {x = j_bits b % 2 ^ 21} {y = j_bits b} (omega arith))

pub decode_U_immediate_field : (b : ℕ) → b < word_mod → decode_U_immediate b ≡ b / 2 ^ 12 * 2 ^ 12
unfolding decode_U_immediate
decode_U_immediate_field b h = omega (
  arith,
  bit_and_high 12 (b / 2 ^ 12) (b % 2 ^ 12) (2 ^ 20 - 1) (omega arith),
  bit_and_mask 20 (b / 2 ^ 12),
  ap (λ m. bit_and m 0xfffff000) {x = b / 2 ^ 12 * 2 ^ 12 + b % 2 ^ 12} {y = b} (omega arith),
)

-- What holds of each format's decoding, where the opcode selects it, holds of `decode`.
pub decode_keeps {ℓ} :
    (P : DecodedInstruction → Type ℓ) (b : ℕ)
    → ((b == 0x0ff00513) ≡ true → P (record no_instruction { op = halt }))
    → ((extract_bits b 6 0 == 0x33) ≡ true → P (decode_R_type b))
    → P (decode_I_type b)
    → ((extract_bits b 6 0 == 0x23) ≡ true → P (decode_S_type b))
    → ((extract_bits b 6 0 == 0x63) ≡ true → P (decode_B_type b))
    → ((extract_bits b 6 0 == 0x37 || extract_bits b 6 0 == 0x17) ≡ true → P (decode_U_type b))
    → ((extract_bits b 6 0 == 0x6f) ≡ true → P (decode_J_type b))
    → P no_instruction
    → P (decode b)
unfolding decode
decode_keeps P b on_halt on_R on_I on_S on_B on_U on_J on_none =
    if_keeps P (b == 0x0ff00513) on_halt λ _. if_keeps P (extract_bits b 6 0 == 0x33) on_R λ _.
      if_keeps P
        (extract_bits b 6 0 == 0x03 || extract_bits b 6 0 == 0x13 || extract_bits b 6 0 == 0x67)
        (λ _. on_I)
        λ _. if_keeps P (extract_bits b 6 0 == 0x23) on_S λ _.
          if_keeps P (extract_bits b 6 0 == 0x63) on_B λ _.
            if_keeps P (extract_bits b 6 0 == 0x37 || extract_bits b 6 0 == 0x17) on_U
              λ _. if_keeps P (extract_bits b 6 0 == 0x6f) on_J λ _. on_none
