-- ===== src/Image/Access.antt =====
-- Accesses to the memory of src/memory/image.cpp: values, bounds, and what a write leaves alone.
use risc_v_cpu_simulator.Base.{ℕ, zero, suc, ◌+◌, ◌*◌, ◌/◌, ◌%◌, ◌^◌, ◌≤◌, ◌<◌}
use risc_v_cpu_simulator.Base.{
  ◌∙◌, inl, inr, sym, ◌≡◌, ◌⊎◌, refl, arith, Bool, true, false, none, some, ap,
}
use risc_v_cpu_simulator.Base.{leb, if◌then◌else◌}
use risc_v_cpu_simulator.Base.Bits.{low-bit_or, bit_and_mask}
use risc_v_cpu_simulator.Image.{
  MemoryImage, memory_size, in_bounds, read_byte, read_half, read_word,
}
use risc_v_cpu_simulator.Image.{write_byte, write_half, write_word}

-- Every cell holds a byte.
abbrev pub IsBytes : MemoryImage → Type 0
IsBytes m = (a : ℕ) → m.bytes a < 256

-- The little-endian value of `width` bytes from an address on.
abbrev pub little_endian : MemoryImage → ℕ → ℕ → ℕ
little_endian m a zero = 0
little_endian m a (suc width) = m.bytes a + 256 * little_endian m (a + 1) width

-- An access of 1 to 2 ^ 20 bytes is in bounds exactly when its last byte lies in the memory.
pub in_bounds_lem : (a w : ℕ) → w ≤ memory_size → (in_bounds a w ≡ leb (a + w) memory_size)
unfolding in_bounds
in_bounds_lem a w h = ground arith

pub in_bounds-true : (a w : ℕ) → a + w ≤ memory_size → in_bounds a w ≡ true
unfolding in_bounds
in_bounds-true a w h = ground arith

module _ (m : MemoryImage) (a : ℕ) (v : IsBytes m) where
  read_byte-value : a + 1 ≤ memory_size → read_byte m a ≡ some (little_endian m a 1)
  unfolding read_byte
  read_byte-value h = ground (arith, in_bounds_lem a 1)

  read_half-value : a + 2 ≤ memory_size → read_half m a ≡ some (little_endian m a 2)
  unfolding read_half
  read_half-value h =
      ground (arith, in_bounds_lem a 2, v a, v (a + 1), low-bit_or 8 (m.bytes (a + 1)) (m.bytes a))

  read_word-value : a + 4 ≤ memory_size → read_word m a ≡ some (little_endian m a 4)
  unfolding read_word
  read_word-value h = ground (
    arith,
    in_bounds_lem a 4,
    v a,
    v (a + 1),
    v (a + 2),
    v (a + 3),
    low-bit_or 8 (m.bytes (a + 1)) (m.bytes a),
    low-bit_or 16 (m.bytes (a + 2)) (m.bytes (a + 1) * 2 ^ 8 + m.bytes a),
    low-bit_or 24 (m.bytes (a + 3))
        (m.bytes (a + 2) * 2 ^ 16 + m.bytes (a + 1) * 2 ^ 8 + m.bytes a),
  )

  read_byte-outside : memory_size < a + 1 → read_byte m a ≡ none
  unfolding read_byte
  read_byte-outside h = ground (arith, in_bounds_lem a 1)

  read_half-outside : memory_size < a + 2 → read_half m a ≡ none
  unfolding read_half
  read_half-outside h = ground (arith, in_bounds_lem a 2)

  read_word-outside : memory_size < a + 4 → read_word m a ≡ none
  unfolding read_word
  read_word-outside h = ground (arith, in_bounds_lem a 4)

-- A read of one, two or four bytes gives their little-endian value if all of them lie in the
-- memory, and nothing otherwise.
pub read_lem :
    (m : MemoryImage) (a : ℕ)
    → IsBytes m
    → (read_byte m a ≡ (if leb (a + 1) memory_size then some (little_endian m a 1) else none))
      × (read_half m a ≡ (if leb (a + 2) memory_size then some (little_endian m a 2) else none))
      × (read_word m a ≡ (if leb (a + 4) memory_size then some (little_endian m a 4) else none))
read_lem m a v = (
  ground (arith, read_byte-value m a v, read_byte-outside m a v),
  ground (arith, read_half-value m a v, read_half-outside m a v),
  ground (arith, read_word-value m a v, read_word-outside m a v),
)

-- What a write of a value's low `width` bytes at an address leaves: those bytes there, every other
-- byte as it was, and the two counts of the loader.
pub record IsWritten (m : MemoryImage) (a width value : ℕ) (m' : MemoryImage) : Type 0 where
  pub holds : little_endian m' a width ≡ value % 2 ^ (8 * width)
  pub others : (j : ℕ) → (j < a) ⊎ (a + width ≤ j) → m'.bytes j ≡ m.bytes j
  pub bytes : IsBytes m'
  pub count : m'.load_byte_count ≡ m.load_byte_count
  pub highest : m'.highest_loaded_address ≡ m.highest_loaded_address

module _ (m : MemoryImage) (a value : ℕ) (v : IsBytes m) where
  write_byte-ok :
      a + 1 ≤ memory_size
      → value < 256
      → ((write_byte m a value).1 ≡ true) × IsWritten m a 1 value (write_byte m a value).0
  unfolding write_byte
  write_byte-ok h small = rw (in_bounds-true a 1 h) (
    refl,
    record {
      holds = ground arith;
      others = λ j p. ground arith;
      bytes = λ j. ground (arith, v j);
      count = refl;
      highest = refl;
    },
  )

  write_half-ok :
      a + 2 ≤ memory_size
      → ((write_half m a value).1 ≡ true) × IsWritten m a 2 value (write_half m a value).0
  unfolding write_half
  write_half-ok h =
      rw (in_bounds-true a 2 h, bit_and_mask 8 value, bit_and_mask 8 (value / 2 ^ 8))
        (
          refl,
          record {
            holds = ground arith;
            others = λ j p. ground arith;
            bytes = λ j. ground (arith, v j);
            count = refl;
            highest = refl;
          },
        )

  write_word-ok :
      a + 4 ≤ memory_size
      → ((write_word m a value).1 ≡ true) × IsWritten m a 4 value (write_word m a value).0
  unfolding write_word
  write_word-ok h =
      rw
        (
          in_bounds-true a 4 h,
          bit_and_mask 8 value,
          bit_and_mask 8 (value / 2 ^ 8),
          bit_and_mask 8 (value / 2 ^ 16),
          bit_and_mask 8 (value / 2 ^ 24),
        )
        (
          refl,
          record {
            holds = ground arith;
            others = λ j p. ground arith;
            bytes = λ j. ground (arith, v j);
            count = refl;
            highest = refl;
          },
        )

-- The outcome of a write of `width` bytes: made, or refused because it leaves the memory.
abbrev pub Outcome : MemoryImage → ℕ → ℕ → ℕ → MemoryImage × Bool → Type 0
Outcome m a width value r =
    ((a + width ≤ memory_size) × (r.1 ≡ true) × IsWritten m a width value r.0)
    ⊎ ((memory_size < a + width) × (r ≡ (m, false)))

fits_or_not : (a w : ℕ) → (a + w ≤ memory_size) ⊎ (memory_size < a + w)
fits_or_not a w = omega arith

module _ (m : MemoryImage) (a value : ℕ) (v : IsBytes m) where
  in_bounds-false : (w : ℕ) → w ≤ memory_size → memory_size < a + w → in_bounds a w ≡ false
  unfolding in_bounds
  in_bounds-false w p h = ground arith

  write_byte-Outcome : value < 256 → Outcome m a 1 value (write_byte m a value)
  write_byte-Outcome small = elim (fits_or_not a 1) [
    | inl h ↦ let ok = write_byte-ok m a value v h small in inl (h, ok.0, ok.1)
    | inr h ↦ inr (h, unfold write_byte in rw (in_bounds-false 1 (omega arith) h))
  ]

  write_half-Outcome : Outcome m a 2 value (write_half m a value)
  write_half-Outcome = elim (fits_or_not a 2) [
    | inl h ↦ let ok = write_half-ok m a value v h in inl (h, ok.0, ok.1)
    | inr h ↦ inr (h, unfold write_half in rw (in_bounds-false 2 (omega arith) h))
  ]

  write_word-Outcome : Outcome m a 4 value (write_word m a value)
  write_word-Outcome = elim (fits_or_not a 4) [
    | inl h ↦ let ok = write_word-ok m a value v h in inl (h, ok.0, ok.1)
    | inr h ↦ inr (h, unfold write_word in rw (in_bounds-false 4 (omega arith) h))
  ]

-- A write of one, two or four bytes stores the low bytes of its value in little-endian order and
-- changes no other byte if all its bytes lie in the memory; otherwise it reports failure and
-- changes nothing. (The caller of `write_byte` passes a byte.)
pub write_lem :
    (m : MemoryImage) (a value : ℕ)
    → IsBytes m
    → Outcome m a 1 (value % 256) (write_byte m a (value % 256))
      × Outcome m a 2 value (write_half m a value)
      × Outcome m a 4 value (write_word m a value)
write_lem m a value v = (
  write_byte-Outcome m a (value % 256) v (omega arith),
  write_half-Outcome m a value v,
  write_word-Outcome m a value v,
)

module _ (m : MemoryImage) (a value : ℕ) (v : IsBytes m) (word : value < 2 ^ 32)
    (fits : a + 4 ≤ memory_size) where
  -- A word that is written is read back.
  pub read_word-write_word : read_word (write_word m a value).0 a ≡ some value
  read_word-write_word =
      let written = (write_word-ok m a value v fits).1 in
      read_word-value (write_word m a value).0 a written.bytes fits
      ∙ ap some (omega (arith, written.holds))

  -- A word that does not overlap the one written reads as before.
  pub read_word-write_word_apart :
      (b : ℕ)
      → (b + 4 ≤ a) ⊎ (a + 4 ≤ b)
      → b + 4 ≤ memory_size
      → read_word (write_word m a value).0 b ≡ read_word m b
  read_word-write_word_apart b p h =
      let written = (write_word-ok m a value v fits).1 in
      read_word-value (write_word m a value).0 b written.bytes h
      ∙ ap some (same written)
      ∙ sym (read_word-value m b v h)
    where
      same :
          IsWritten m a 4 value (write_word m a value).0
          → little_endian (write_word m a value).0 b 4 ≡ little_endian m b 4
      same w =
          ground
            (arith, w.others b, w.others (b + 1), w.others (b + 1 + 1), w.others (b + 1 + 1 + 1))
