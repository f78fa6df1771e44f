-- ===== src/Decoder/Tests.antt =====
-- Runs of the decoder on words that an assembler produced, and instances of its theorems.
use risc_v_cpu_simulator.Base.{◌≡◌, refl, arith}
use risc_v_cpu_simulator.Types.{extract_bits, get_bit, sign_extend, bit_mask}
use risc_v_cpu_simulator.Instruction.{addi, sub, beq, jal, halt}
use risc_v_cpu_simulator.Decoder.{decode, decode_R_type, decode_I_type, decode_op_immediate}
use risc_v_cpu_simulator.Decoder.{decode_B_type, decode_J_type, r_op, op_immediate_op, branch_op}
use risc_v_cpu_simulator.Decoder.{is_shift_immediate, decode_register, write_register}
use risc_v_cpu_simulator.Decoder.{decode_I_immediate, decode_B_immediate, decode_J_immediate}
use risc_v_cpu_simulator.Decoder.Encode.{encode}
use risc_v_cpu_simulator.Decoder.Roundtrip.{encode-decode}
use risc_v_cpu_simulator.Decoder.Shape.{IsWellFormed, decode-IsWellFormed}

-- `addi a0, a0, -1` and `sub a0, a1, a2`
addi_minus_one : ((decode 0xfff50513).op ≡ addi) × ((decode 0xfff50513).immediate ≡ 0xffffffff)
unfolding decode decode_I_type decode_op_immediate op_immediate_op is_shift_immediate
    decode_register decode_I_immediate extract_bits sign_extend bit_mask
addi_minus_one = (refl, refl)

sub_registers : ((decode 0x40c58533).op ≡ sub) × ((decode 0x40c58533).rs2 ≡ 12)
unfolding decode decode_R_type r_op decode_register extract_bits bit_mask
sub_registers = (refl, refl)

-- `beq a0, a1, -8`
beq_backwards : ((decode 0xfeb50ce3).op ≡ beq) × ((decode 0xfeb50ce3).immediate ≡ 0xfffffff8)
unfolding decode decode_B_type branch_op decode_B_immediate extract_bits sign_extend bit_mask
    get_bit
beq_backwards = (refl, refl)

-- `jal ra, 2048`
jal_forward : ((decode 0x001000ef).op ≡ jal) × ((decode 0x001000ef).immediate ≡ 2048)
unfolding decode decode_J_type decode_J_immediate extract_bits sign_extend bit_mask get_bit
    decode_register write_register
jal_forward = (refl, refl)

stop_marker : (decode 0x0ff00513).op ≡ halt
unfolding decode
stop_marker = refl

encode-decode_example : encode (decode 0xfeb50ce3) ≡ 0xfeb50ce3
unfolding decode decode_B_type branch_op extract_bits bit_mask
encode-decode_example = encode-decode 0xfeb50ce3 (omega arith) refl

decode-IsWellFormed_example : IsWellFormed (decode 0x40c58533)
decode-IsWellFormed_example = decode-IsWellFormed 0x40c58533 (omega arith)
