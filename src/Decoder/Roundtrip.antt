-- ===== src/Decoder/Roundtrip.antt =====
-- No instruction word loses information in the decoder: encoding what it decoded gives it back.
use risc_v_cpu_simulator.Base.{ℕ, ◌/◌, ◌%◌, ◌^◌, ◌<◌, ◌≡◌, ◌⊎◌, inl, inr, ap, ◌∙◌}
use risc_v_cpu_simulator.Base.{true, false, arith, Bool-cases, ◌==◌, ◌||◌, if_keeps, ==→eq, sym}
use risc_v_cpu_simulator.Types.{word_mod, extract_bits}
use risc_v_cpu_simulator.Types.Laws.{extract_bits_field}
use risc_v_cpu_simulator.Instruction.{op_eq, invalid, halt, no_instruction, DecodedInstruction}
use risc_v_cpu_simulator.Decoder.{r_op, op_immediate_op, load_op, store_op, branch_op}
use risc_v_cpu_simulator.Decoder.{
  is_shift_immediate, decode_register, decode_R_type, decode_I_type, decode_S_type, decode_B_type,
  decode_U_type, decode_J_type, decode_op_immediate, decode_load, decode_jalr, u_instruction,
  decode,
}
use risc_v_cpu_simulator.Decoder.Fields.{
  decode_keeps, decode_I_immediate_field, decode_S_immediate_field, decode_B_immediate_field,
  decode_J_immediate_field, decode_U_immediate_field,
}
use risc_v_cpu_simulator.Decoder.Encode.{format, opcode, funct3, funct7, encode}
use risc_v_cpu_simulator.Decoder.Encode.{r_type, i_type, shift_type, s_type, b_type}

-- The fields that an instruction word is cut into.
abbrev f_opcode : ℕ → ℕ
f_opcode b = b % 2 ^ 7

abbrev f_rd : ℕ → ℕ
f_rd b = b / 2 ^ 7 % 2 ^ 5

abbrev f_funct3 : ℕ → ℕ
f_funct3 b = b / 2 ^ 12 % 2 ^ 3

abbrev f_rs1 : ℕ → ℕ
f_rs1 b = b / 2 ^ 15 % 2 ^ 5

abbrev f_rs2 : ℕ → ℕ
f_rs2 b = b / 2 ^ 20 % 2 ^ 5

abbrev f_funct7 : ℕ → ℕ
f_funct7 b = b / 2 ^ 25 % 2 ^ 7

r_op-row :
    (f3 f7 : ℕ)
    → op_eq (r_op f3 f7) invalid ≡ false
    → (format (r_op f3 f7) ≡ r_type)
      × (opcode (r_op f3 f7) ≡ 0x33)
      × (funct3 (r_op f3 f7) ≡ f3)
      × (funct7 (r_op f3 f7) ≡ f7)
unfolding r_op
r_op-row f3 f7 h = ground arith

op_immediate_op-row :
    (f3 f7 : ℕ)
    → op_eq (op_immediate_op f3 f7) invalid ≡ false
    → (opcode (op_immediate_op f3 f7) ≡ 0x13)
      × (funct3 (op_immediate_op f3 f7) ≡ f3)
      × ((is_shift_immediate (op_immediate_op f3 f7) ≡ false)
            × (format (op_immediate_op f3 f7) ≡ i_type)
          ⊎ (is_shift_immediate (op_immediate_op f3 f7) ≡ true)
            × (format (op_immediate_op f3 f7) ≡ shift_type)
            × (funct7 (op_immediate_op f3 f7) ≡ f7))
unfolding op_immediate_op is_shift_immediate
op_immediate_op-row f3 f7 h = ground arith

load_op-row :
    (f3 : ℕ)
    → op_eq (load_op f3) invalid ≡ false
    → (format (load_op f3) ≡ i_type) × (opcode (load_op f3) ≡ 0x03) × (funct3 (load_op f3) ≡ f3)
unfolding load_op
load_op-row f3 h = ground arith

store_op-row :
    (f3 : ℕ)
    → op_eq (store_op f3) invalid ≡ false
    → (format (store_op f3) ≡ s_type) × (opcode (store_op f3) ≡ 0x23) × (funct3 (store_op f3) ≡ f3)
unfolding store_op
store_op-row f3 h = ground arith

branch_op-row :
    (f3 : ℕ)
    → op_eq (branch_op f3) invalid ≡ false
    → (format (branch_op f3) ≡ b_type)
      × (opcode (branch_op f3) ≡ 0x63)
      × (funct3 (branch_op f3) ≡ f3)
unfolding branch_op
branch_op-row f3 h = ground arith

module _ (b : ℕ) where
  opcode_field : extract_bits b 6 0 ≡ f_opcode b
  opcode_field =
      extract_bits_field b 6 0 (omega arith) (omega arith) (omega arith)
      ∙ ap (λ t. t % 2 ^ 7) (omega arith)

  rd_field : extract_bits b 11 7 ≡ f_rd b
  rd_field = extract_bits_field b 11 7 (omega arith) (omega arith) (omega arith)

  funct3_field : extract_bits b 14 12 ≡ f_funct3 b
  funct3_field = extract_bits_field b 14 12 (omega arith) (omega arith) (omega arith)

  rs1_field : extract_bits b 19 15 ≡ f_rs1 b
  rs1_field = extract_bits_field b 19 15 (omega arith) (omega arith) (omega arith)

  rs2_field : extract_bits b 24 20 ≡ f_rs2 b
  rs2_field = extract_bits_field b 24 20 (omega arith) (omega arith) (omega arith)

  funct7_field : extract_bits b 31 25 ≡ f_funct7 b
  funct7_field = extract_bits_field b 31 25 (omega arith) (omega arith) (omega arith)

module _ (b : ℕ) (word : b < word_mod) where
  encode-decode_R_type :
      f_opcode b ≡ 0x33 → op_eq (decode_R_type b).op invalid ≡ false → encode (decode_R_type b) ≡ b
  unfolding decode_R_type decode_register encode
  encode-decode_R_type o h =
      elim (Bool-cases (op_eq (r_op (extract_bits b 14 12) (extract_bits b 31 25)) invalid)) [
        | inl e ↦ ground (arith, e)
        | inr e ↦ ground (
          arith,
          e,
          r_op-row (extract_bits b 14 12) (extract_bits b 31 25) e,
          rd_field b,
          funct3_field b,
          rs1_field b,
          rs2_field b,
          funct7_field b,
        )
      ]

  encode-decode_op_immediate :
      f_opcode b ≡ 0x13
      → op_eq (decode_op_immediate b).op invalid ≡ false
      → encode (decode_op_immediate b) ≡ b
  unfolding decode_op_immediate decode_register encode
  encode-decode_op_immediate o h =
      elim (Bool-cases
        (op_eq (op_immediate_op (extract_bits b 14 12) (extract_bits b 31 25)) invalid)) [
          | inl e ↦ ground (arith, e)
          | inr e ↦ ground (
            arith,
            e,
            op_immediate_op-row (extract_bits b 14 12) (extract_bits b 31 25) e,
            rd_field b,
            funct3_field b,
            rs1_field b,
            rs2_field b,
            funct7_field b,
            decode_I_immediate_field b,
          )
        ]

  encode-decode_load :
      f_opcode b ≡ 0x03 → op_eq (decode_load b).op invalid ≡ false → encode (decode_load b) ≡ b
  unfolding decode_load decode_register encode
  encode-decode_load o h = elim (Bool-cases (op_eq (load_op (extract_bits b 14 12)) invalid)) [
    | inl e ↦ ground (arith, e)
    | inr e ↦ ground (
      arith,
      e,
      load_op-row (extract_bits b 14 12) e,
      rd_field b,
      funct3_field b,
      rs1_field b,
      decode_I_immediate_field b,
    )
  ]

  encode-decode_jalr :
      f_opcode b ≡ 0x67 → op_eq (decode_jalr b).op invalid ≡ false → encode (decode_jalr b) ≡ b
  unfolding decode_jalr decode_register encode
  encode-decode_jalr o h =
      ground (arith, rd_field b, funct3_field b, rs1_field b, decode_I_immediate_field b)

  encode-decode_S_type :
      f_opcode b ≡ 0x23 → op_eq (decode_S_type b).op invalid ≡ false → encode (decode_S_type b) ≡ b
  unfolding decode_S_type decode_register encode
  encode-decode_S_type o h = elim (Bool-cases (op_eq (store_op (extract_bits b 14 12)) invalid)) [
    | inl e ↦ ground (arith, e)
    | inr e ↦ ground (
      arith,
      e,
      store_op-row (extract_bits b 14 12) e,
      rs2_field b,
      funct3_field b,
      rs1_field b,
      decode_S_immediate_field b,
    )
  ]

  encode-decode_B_type :
      f_opcode b ≡ 0x63 → op_eq (decode_B_type b).op invalid ≡ false → encode (decode_B_type b) ≡ b
  unfolding decode_B_type decode_register encode
  encode-decode_B_type o h = elim (Bool-cases (op_eq (branch_op (extract_bits b 14 12)) invalid)) [
    | inl e ↦ ground (arith, e)
    | inr e ↦ ground (
      arith,
      e,
      branch_op-row (extract_bits b 14 12) e,
      rs2_field b,
      funct3_field b,
      rs1_field b,
      decode_B_immediate_field b,
    )
  ]

  encode-decode_J_type : f_opcode b ≡ 0x6f → encode (decode_J_type b) ≡ b
  unfolding decode_J_type decode_register encode
  encode-decode_J_type o = ground (arith, rd_field b, decode_J_immediate_field b)

  encode-decode_U_type : (f_opcode b ≡ 0x37) ⊎ (f_opcode b ≡ 0x17) → encode (decode_U_type b) ≡ b
  unfolding decode_U_type u_instruction decode_register encode
  encode-decode_U_type o = ground (arith, opcode_field b, rd_field b, decode_U_immediate_field b)

  abbrev Lossless : DecodedInstruction → Type 0
  Lossless d = op_eq d.op invalid ≡ false → encode d ≡ b

  nothing-Lossless : Lossless no_instruction
  nothing-Lossless h = cc

  is_opcode : (n : ℕ) → (extract_bits b 6 0 == n) ≡ true → f_opcode b ≡ n
  is_opcode n e = omega (arith, opcode_field b, ==→eq (extract_bits b 6 0) n e)

  encode-decode_I_type : Lossless (decode_I_type b)
  unfolding decode_I_type
  encode-decode_I_type =
      if_keeps Lossless _ (λ e. encode-decode_op_immediate (is_opcode 0x13 e))
        λ _.
          if_keeps Lossless _ (λ e. encode-decode_load (is_opcode 0x03 e))
            λ _.
              if_keeps Lossless _ (λ e. encode-decode_jalr (is_opcode 0x67 e)) λ _. nothing-Lossless

  is_U_opcode :
      (extract_bits b 6 0 == 0x37 || extract_bits b 6 0 == 0x17) ≡ true
      → (f_opcode b ≡ 0x37) ⊎ (f_opcode b ≡ 0x17)
  is_U_opcode e = ground (arith, opcode_field b)

encode-halt : (b : ℕ) → (b == 0x0ff00513) ≡ true → encode (record no_instruction { op = halt }) ≡ b
unfolding encode
encode-halt b e = sym (==→eq b 0x0ff00513 e)

-- Decoding a 32-bit word to an instruction that is not INVALID and encoding that by the formats of
-- the manual gives the word back.
pub encode-decode :
    (b : ℕ) → b < word_mod → op_eq (decode b).op invalid ≡ false → encode (decode b) ≡ b
encode-decode b word =
    decode_keeps (Lossless b word) b (λ e _. encode-halt b e)
      (λ e. encode-decode_R_type b word (is_opcode b word 0x33 e)) (encode-decode_I_type b word)
      (λ e. encode-decode_S_type b word (is_opcode b word 0x23 e))
      (λ e. encode-decode_B_type b word (is_opcode b word 0x63 e))
      (λ e _. encode-decode_U_type b word (is_U_opcode b word e))
      (λ e _. encode-decode_J_type b word (is_opcode b word 0x6f e)) (nothing-Lossless b word)
