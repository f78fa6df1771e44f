-- ===== src/Image/Sections.antt =====
-- The text of a program for the loader of src/memory/image.cpp, section by section, and what it stores.
use risc_v_cpu_simulator.Base.{
  ℕ, ◌+◌, ◌%◌, ◌^◌, ◌<◌, ◌≤◌, ◌≡◌, ap₂, arith, true, false, ◌==◌, List, [], ◌∷◌, map, length, Array,
  update,
}
use mathlib.Core.Path.{subst}
use risc_v_cpu_simulator.Image.{memory_size, Token, FromChars, LoadState, place_byte}

-- Bytes from an address on.
pub record Section : Type 0 where
  pub address : ℕ
  pub bytes : List ℕ

-- The numbers are bytes, and the section lies in the memory.
abbrev pub AreBytes : List ℕ → Type 0
AreBytes [] = Unit {0}
AreBytes (b ∷ bytes) = (b < 256) × AreBytes bytes

abbrev pub Fits : Section → Type 0
Fits s = (s.address < memory_size) × (s.address + length s.bytes ≤ memory_size) × AreBytes s.bytes

abbrev pub AllFit : List Section → Type 0
AllFit [] = Unit {0}
AllFit (s ∷ sections) = Fits s × AllFit sections

-- The memory once the sections are stored, one after the other.
abbrev pub store_bytes : Array ℕ → ℕ → List ℕ → Array ℕ
store_bytes cells address [] = cells
store_bytes cells address (b ∷ bytes) = store_bytes (update cells address b) (address + 1) bytes

abbrev pub store_sections : Array ℕ → List Section → Array ℕ
store_sections cells [] = cells
store_sections cells (s ∷ sections) = store_sections (store_bytes cells s.address s.bytes) sections

abbrev pub total : List Section → ℕ
total [] = 0
total (s ∷ sections) = length s.bytes + total sections

-- A way to print words that the library's parser reads back: digits, and so without the sign `@`.
pub record IsPrinter (from_chars : Token → FromChars) (print : ℕ → Token) : Type 0 where
  pub first : ℕ → ℕ
  pub others : ℕ → Token
  pub shape : (n : ℕ) → print n ≡ first n ∷ others n
  pub plain : (n : ℕ) → (first n == b'@') ≡ false
  pub reads :
      (n : ℕ)
      → n < 2 ^ 32
      → from_chars (print n) ≡ record { fine = true; position = length (print n); value = n }

-- The text of the sections: a line with the address of each, and a line with its bytes.
abbrev pub text : (ℕ → Token) → List Section → List (List Token)
text print [] = []
text print (s ∷ sections) =
    ((b'@' ∷ print s.address) ∷ []) ∷ map print s.bytes ∷ text print sections

-- The state of the loader after some bytes.
abbrev pub placed : LoadState → List ℕ → LoadState
placed s [] = s
placed s (b ∷ bytes) = placed (place_byte s b) bytes

-- What a state has stored.
pub record HasStored (s : LoadState) (cells : Array ℕ) (count : ℕ) : Type 0 where
  pub cells_are : s.image.bytes ≡ cells
  pub counted : s.bytes_loaded ≡ count % 2 ^ 64
  pub told : s.image.load_byte_count ≡ count % 2 ^ 64

pub placed-HasStored :
    (bytes : List ℕ) (s : LoadState) (cells : Array ℕ) (count : ℕ)
    → AreBytes bytes
    → HasStored s cells count
    → HasStored (placed s bytes) (store_bytes cells s.current_address bytes) (count + length bytes)
unfolding place_byte
placed-HasStored [] s cells count a h = subst (HasStored s cells) (omega arith) h
placed-HasStored (b ∷ bytes) s cells count a h =
    subst
      (HasStored (placed s (b ∷ bytes))
        (store_bytes (update cells s.current_address b) (s.current_address + 1) bytes))
      (omega arith)
      (placed-HasStored bytes (place_byte s b) (update cells s.current_address b) (count + 1) a.1
        (record {
          cells_are = ap₂ (λ f n. update f s.current_address n) h.cells_are (omega (arith, a.0));
          counted = omega (arith, h.counted);
          told = omega (arith, h.counted);
        }))
