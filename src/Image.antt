-- ===== src/Image.antt =====
-- include/memory/image.hpp and src/memory/image.cpp: the memory of 1 MB, its little-endian accesses
-- and the loader of hexadecimal images.
pub mod Access
pub mod Load
pub mod Sections
pub mod Roundtrip
mod Tests
use risc_v_cpu_simulator.Base.{ℕ, suc, ◌+◌, ◌-◌, ◌*◌, ◌/◌, ◌%◌, ◌^◌, bit_and, bit_or}
use risc_v_cpu_simulator.Base.{
  Bool, true, false, not, ◌||◌, ◌&&◌, Option, none, some, List, [], ◌∷◌,
}
use risc_v_cpu_simulator.Base.{ltb, leb, ◌==◌, if◌then◌else◌, Array, update, fill, length}
use risc_v_cpu_simulator.Types.{shl32, shr32}

abbrev pub memory_size : ℕ
memory_size = 2 ^ 20

pub record MemoryImage : Type 0 where
  pub bytes : Array ℕ
  pub load_byte_count : ℕ
  pub highest_loaded_address : Option ℕ

-- What `clear()` leaves, and a new object.
abbrev pub clear : MemoryImage
clear = record { bytes = fill 0; load_byte_count = 0; highest_loaded_address = none }

unfoldable pub in_bounds : ℕ → ℕ → Bool
in_bounds address width = if ltb memory_size width then false else leb address (memory_size - width)

unfoldable pub read_byte : MemoryImage → ℕ → Option ℕ
read_byte m address = if not (in_bounds address 1) then none else some (m.bytes address)

unfoldable pub read_half : MemoryImage → ℕ → Option ℕ
read_half m address =
    let low = m.bytes address in
    let high = m.bytes (address + 1) in
    if not (in_bounds address 2) then none else some (bit_or low (high * 2 ^ 8 % 2 ^ 16) % 2 ^ 16)

unfoldable pub read_word : MemoryImage → ℕ → Option ℕ
read_word m address =
    if not (in_bounds address 4)
    then none
    else some (
        bit_or
          (bit_or (bit_or (m.bytes address) (shl32 (m.bytes (address + 1)) 8))
            (shl32 (m.bytes (address + 2)) 16))
          (shl32 (m.bytes (address + 3)) 24))

-- A write returns the image and whether it was made.
unfoldable pub write_byte : MemoryImage → ℕ → ℕ → MemoryImage × Bool
write_byte m address value =
    if not (in_bounds address 1)
    then (m, false)
    else (record m { bytes = update m.bytes address value }, true)

unfoldable pub write_half : MemoryImage → ℕ → ℕ → MemoryImage × Bool
write_half m address value =
    let low = update m.bytes address (bit_and value 0xff) in
    let high = update low (address + 1) (bit_and (shr32 value 8) 0xff) in
    if not (in_bounds address 2) then (m, false) else (record m { bytes = high }, true)

unfoldable pub write_word : MemoryImage → ℕ → ℕ → MemoryImage × Bool
write_word m address value =
    let first = update m.bytes address (bit_and value 0xff) in
    let second = update first (address + 1) (bit_and (shr32 value 8) 0xff) in
    let third = update second (address + 2) (bit_and (shr32 value 16) 0xff) in
    let fourth = update third (address + 3) (bit_and (shr32 value 24) 0xff) in
    if not (in_bounds address 4) then (m, false) else (record m { bytes = fourth }, true)

pub data ImageLoadStatus : Type 0 where
  success invalid_address invalid_byte missing_address address_out_of_bounds : ImageLoadStatus
  stream_error : ImageLoadStatus

-- Texts are lists of character codes.
abbrev pub Token : Type 0
Token = List ℕ

pub record ImageLoadResult : Type 0 where
  pub status : ImageLoadStatus
  pub loaded_byte_count : ℕ
  pub error_line : ℕ
  pub error_token : Token

unfoldable pub load_ok : ImageLoadResult → Bool
load_ok r = elim (r.status) [ success ↦ true | _ ↦ false ]

-- What `std::from_chars` reports for a text in base 16: no error, characters read, the value.
pub record FromChars : Type 0 where
  pub fine : Bool
  pub position : ℕ
  pub value : ℕ

-- The variables of the loop of `load`.
pub record LoadState : Type 0 where
  pub image : MemoryImage
  pub current_address : ℕ
  pub bytes_loaded : ℕ
  pub has_current_address : Bool

-- A `std::istream` after the library has cut it into lines and these into tokens.
pub record Input : Type 0 where
  pub lines : List (List Token)
  pub bad : Bool

-- An early `return` of `load`, or the state in which its loop goes on.
pub data Progress : Type 0 where
  going : LoadState → Progress
  stopped : LoadState → ImageLoadResult → Progress

unfoldable pub make_result : LoadState → ImageLoadStatus → ℕ → Token → ImageLoadResult
make_result s status line token = record {
  status = status;
  loaded_byte_count = s.bytes_loaded;
  error_line = line;
  error_token = token;
}

-- `!highest || loaded > *highest`
unfoldable pub raise_highest : Option ℕ → ℕ → Option ℕ
raise_highest none loaded = some loaded
raise_highest (some highest) loaded = if ltb highest loaded then some loaded else some highest

-- `bytes_[current_address] = ...` with the counts that follow.
unfoldable pub place_byte : LoadState → ℕ → LoadState
place_byte s byte =
    let m = s.image in
    let count = (s.bytes_loaded + 1) % 2 ^ 64 in
    record s {
      image = record {
        bytes = update m.bytes s.current_address (byte % 2 ^ 8);
        load_byte_count = count;
        highest_loaded_address =
            raise_highest m.highest_loaded_address (s.current_address % 2 ^ 32);
      };
      bytes_loaded = count;
      current_address = s.current_address + 1;
    }

abbrev pub load_start : LoadState
load_start = record {
  image = clear;
  current_address = 0;
  bytes_loaded = 0;
  has_current_address = false;
}

-- The end of `load`, after the loop.
unfoldable pub finish : Input → Progress → MemoryImage × ImageLoadResult
finish input (going s) = (s.image, make_result s (if input.bad then stream_error else success) 0 [])
finish input (stopped s r) = (s.image, r)

module _ (from_chars : Token → FromChars) where
  unfoldable pub parse_hex : Token → Option ℕ
  parse_hex [] = none
  parse_hex (c ∷ text) =
      let parsed = from_chars (c ∷ text) in
      if parsed.fine && parsed.position == length (c ∷ text) then some parsed.value else none

  -- A token `@address`, given without its `@`.
  unfoldable pub load_address : ℕ → Token → Token → LoadState → Progress
  load_address line token text s = elim (parse_hex text) [
    | none ↦ stopped s (make_result s invalid_address line token)
    | some parsed_address ↦
        if leb memory_size parsed_address
        then stopped s (make_result s address_out_of_bounds line token)
        else going (record s { current_address = parsed_address; has_current_address = true })
  ]

  -- Any other token.
  unfoldable pub load_byte : ℕ → Token → LoadState → Progress
  load_byte line token s =
      if not s.has_current_address
      then stopped s (make_result s missing_address line token)
      else elim (parse_hex token) [
        | none ↦ stopped s (make_result s invalid_byte line token)
        | some parsed_byte ↦
            if ltb 0xff parsed_byte
            then stopped s (make_result s invalid_byte line token)
            else (if leb memory_size s.current_address
                then stopped s (make_result s address_out_of_bounds line token)
                else going (place_byte s parsed_byte))
      ]

  unfoldable pub load_token : ℕ → Token → LoadState → Progress
  load_token line [] s = load_byte line [] s
  load_token line (c ∷ text) s =
      if c == b'@' then load_address line (c ∷ text) text s else load_byte line (c ∷ text) s

  unfoldable pub load_line : ℕ → List Token → LoadState → Progress
  load_line line [] s = going s
  load_line line (token ∷ tokens) s = elim (load_token line token s) [
    | going s' ↦ load_line line tokens s'
    | stopped s' r ↦ stopped s' r
  ]

  -- `line_number` counts the lines read so far.
  unfoldable pub load_lines : ℕ → List (List Token) → LoadState → Progress
  load_lines line_number [] s = going s
  load_lines line_number (line ∷ lines) s =
      let number = (line_number + 1) % 2 ^ 64 in
      elim (load_line number line s) [
        | going s' ↦ load_lines number lines s'
        | stopped s' r ↦ stopped s' r
      ]

  -- `MemoryImage::load`; the old image is cleared whatever happens.
  unfoldable pub load : Input → MemoryImage × ImageLoadResult
  unfolding finish
  load input = finish input (load_lines 0 input.lines load_start)
