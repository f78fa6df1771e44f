-- ===== src/Image/Tests.antt =====
-- Accesses to the memory image, and a small program loaded from text.
use risc_v_cpu_simulator.Base.{
  ℕ, ◌+◌, ◌-◌, ◌*◌, length, ◌≡◌, refl, arith, true, false, some, List, [], ◌∷◌,
}
use risc_v_cpu_simulator.Base.{if◌then◌else◌, leb}
use risc_v_cpu_simulator.Image.{MemoryImage, clear, read_word}
use risc_v_cpu_simulator.Image.{write_word, Token, FromChars, Input, load, load_ok}
use risc_v_cpu_simulator.Image.{
  load_lines, load_line, load_token, load_address, load_byte, parse_hex,
}
use risc_v_cpu_simulator.Image.{place_byte, finish, make_result, raise_highest}
use risc_v_cpu_simulator.Image.Access.{
  IsBytes, little_endian, read_lem, write_lem, read_word-write_word,
}
use risc_v_cpu_simulator.Image.Access.{Outcome}
use risc_v_cpu_simulator.Base.{fill, ap}
use risc_v_cpu_simulator.Image.Sections.{Section, AllFit, IsPrinter, text, store_sections}
use risc_v_cpu_simulator.Image.Roundtrip.{load-text}
use risc_v_cpu_simulator.Image.Load.{IsImage}

clear-IsBytes : IsBytes clear
clear-IsBytes a = omega arith

read_lem_example : read_word clear 0x100 ≡ some (little_endian clear 0x100 4)
read_lem_example = (read_lem clear 0x100 clear-IsBytes).2

write_lem_example : Outcome clear 0x100 4 0x12345678 (write_word clear 0x100 0x12345678)
write_lem_example = (write_lem clear 0x100 0x12345678 clear-IsBytes).2

read_word-write_word_example :
    read_word (write_word clear 0x100 0x12345678).0 0x100 ≡ some 0x12345678
read_word-write_word_example =
    read_word-write_word clear 0x100 0x12345678 clear-IsBytes (omega arith) (omega arith)

-- A parser of lower-case hexadecimal digits that accepts whatever follows as a digit too.
unfoldable hex_value : Token → ℕ → ℕ
hex_value [] n = n
hex_value (c ∷ text) n = hex_value text (n * 16 + (if leb c 57 then c - 48 else c - 87))

abbrev hex : Token → FromChars
hex text = record { fine = true; position = length text; value = hex_value text 0 }

-- `@100` and `13 05`
abbrev at_100 : List Token
at_100 = (b'@' ∷ b'1' ∷ b'0' ∷ b'0' ∷ []) ∷ []

abbrev two_bytes : List Token
two_bytes = (b'1' ∷ b'3' ∷ []) ∷ (b'0' ∷ b'5' ∷ []) ∷ []

abbrev small_program : Input
small_program = record { lines = at_100 ∷ [] ∷ two_bytes ∷ []; bad = false }

abbrev loaded : MemoryImage
loaded = (load hex small_program).0

small_program_loads :
    (loaded.bytes 0x100 ≡ 0x13)
    × (loaded.bytes 0x101 ≡ 5)
    × (loaded.load_byte_count ≡ 2)
    × (load_ok (load hex small_program).1 ≡ true)
unfolding hex_value load load_lines load_line load_token load_address load_byte parse_hex place_byte
    finish make_result raise_highest load_ok
small_program_loads = (refl, refl, refl, refl)

-- A number as one character, behind the codes of ASCII, and its parser.
abbrev one_character : ℕ → Token
one_character n = (n + 128) ∷ []

unfoldable first_character : Token → ℕ
first_character [] = 0
first_character (c ∷ text) = c - 128

abbrev from_one_character : Token → FromChars
from_one_character token = record {
  fine = true;
  position = length token;
  value = first_character token;
}

one_character-IsPrinter : IsPrinter from_one_character one_character
unfolding first_character
one_character-IsPrinter = record {
  first = λ n. n + 128;
  others = λ n. [];
  shape = λ n. refl;
  plain = ground arith;
  reads = λ n w. ap (λ k. record { fine = true; position = 1; value = k }) (omega arith);
}

-- Bytes at 0x100 and at 8, and one that is overwritten.
abbrev three_sections : List Section
three_sections =
    record { address = 0x100; bytes = 0x13 ∷ 0x05 ∷ 0xff ∷ [] }
    ∷ record { address = 8; bytes = 0x42 ∷ [] }
    ∷ record { address = 0x102; bytes = 0x50 ∷ 0x00 ∷ [] }
    ∷ []

three_sections-AllFit : AllFit three_sections
three_sections-AllFit = ground arith

load-text_example :
    let (m, r) =
      load from_one_character (record { lines = text one_character three_sections; bad = false }) in
    IsImage m
    × (m.bytes ≡ store_sections (fill 0) three_sections)
    × (m.load_byte_count ≡ 6)
    × (r.loaded_byte_count ≡ 6)
    × (load_ok r ≡ true)
load-text_example =
    load-text from_one_character one_character one_character-IsPrinter three_sections
      three_sections-AllFit
