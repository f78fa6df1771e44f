-- ===== src/Image/Roundtrip.antt =====
-- The loader of src/memory/image.cpp on the printed text of a program.
use risc_v_cpu_simulator.Base.{
  ℕ, ◌+◌, ◌%◌, ◌^◌, ◌<◌, ◌≤◌, ◌≡◌, ◌∙◌, refl, sym, ap, arith, true, false, leb, if◌then◌else◌,
  Option, none, some, List, [], ◌∷◌, map, length, Array, fill,
}
use mathlib.Core.Path.{subst}
use risc_v_cpu_simulator.Image.{
  memory_size, Token, FromChars, LoadState, Input, Progress, going, stopped, make_result,
  ImageLoadStatus, place_byte, parse_hex, load_address, load_byte, load_token, load_line,
  load_lines, load_start, load, finish, load_ok,
}
use risc_v_cpu_simulator.Image.Load.{IsImage, load-IsImage}
use risc_v_cpu_simulator.Image.Sections.{
  Section, AreBytes, AllFit, store_bytes, store_sections, total, IsPrinter, text, placed, HasStored,
  placed-HasStored,
}

module _ (from_chars : Token → FromChars) (print : ℕ → Token) (p : IsPrinter from_chars print) where
  -- What the parser makes of a printed number, by its first character.
  parse_hex-first : (n : ℕ) → n < 2 ^ 32 → parse_hex from_chars (p.first n ∷ p.others n) ≡ some n
  unfolding parse_hex
  parse_hex-first n w =
      let read =
        subst (λ t. from_chars t ≡ record { fine = true; position = length t; value = n })
          (p.shape n) (p.reads n w) in
      rw read ground arith

  parse_hex-print : (n : ℕ) → n < 2 ^ 32 → parse_hex from_chars (print n) ≡ some n
  parse_hex-print n w = ap (parse_hex from_chars) (p.shape n) ∙ parse_hex-first n w

  load_token-print :
      (line b : ℕ) (s : LoadState)
      → s.has_current_address ≡ true
      → s.current_address < memory_size
      → b < 256
      → load_token from_chars line (print b) s ≡ going (place_byte s b)
  unfolding load_token load_byte
  load_token-print line b s h a l =
      ap (λ t. load_token from_chars line t s) (p.shape b)
      ∙ rw (p.plain b, h, parse_hex-first b (omega (arith, l))) ground arith

  load_line-print :
      (line : ℕ) (bytes : List ℕ) (s : LoadState)
      → s.has_current_address ≡ true
      → s.current_address + length bytes ≤ memory_size
      → AreBytes bytes
      → load_line from_chars line (map print bytes) s ≡ going (placed s bytes)
  unfolding load_line place_byte
  load_line-print line [] s h a l = refl
  load_line-print line (b ∷ bytes) s h a l =
      ap
        (λ (q : Progress). elim q [
          | going s' ↦ load_line from_chars line (map print bytes) s'
          | stopped s' r ↦ stopped s' r
        ])
        (load_token-print line b s h (omega arith) l.0)
      ∙ (load_line-print line bytes (place_byte s b) h (omega arith) l.1)

  load_address-going :
      (line n : ℕ) (token : Token) (s : LoadState)
      → n < memory_size
      → load_address from_chars line token (print n) s
        ≡ going (record s { current_address = n; has_current_address = true })
  unfolding load_address
  load_address-going line n token s l =
      ap
        (λ (o : Option ℕ). elim o [
          | none ↦ stopped s (make_result s ImageLoadStatus.invalid_address line token)
          | some a ↦
              if leb memory_size a
              then stopped s (make_result s ImageLoadStatus.address_out_of_bounds line token)
              else going (record s { current_address = a; has_current_address = true })
        ])
        (parse_hex-print n (omega (arith, l)))
      ∙ ground arith

  load_address-print :
      (line n : ℕ) (s : LoadState)
      → n < memory_size
      → load_line from_chars line ((b'@' ∷ print n) ∷ []) s
        ≡ going (record s { current_address = n; has_current_address = true })
  unfolding load_line load_token
  load_address-print line n s l =
      ap
        (λ (q : Progress). elim q [
          | going s' ↦ load_line from_chars line [] s'
          | stopped s' r ↦ stopped s' r
        ])
        (load_address-going line n (b'@' ∷ print n) s l)

  -- The loader after the lines of some sections.
  abbrev at_section : LoadState → ℕ → LoadState
  at_section s n = record s { current_address = n; has_current_address = true }

  abbrev loaded : LoadState → List Section → LoadState
  loaded s [] = s
  loaded s (x ∷ sections) = loaded (placed (at_section s x.address) x.bytes) sections

  load_lines-text :
      (n : ℕ) (sections : List Section) (s : LoadState)
      → AllFit sections
      → load_lines from_chars n (text print sections) s ≡ going (loaded s sections)
  unfolding load_lines
  load_lines-text n [] s a = refl
  load_lines-text n (x ∷ sections) s (fits, a) =
      let one = (n + 1) % 2 ^ 64 in
      let two = (one + 1) % 2 ^ 64 in
      ap
        (λ (q : Progress). elim q [
          | going s' ↦ load_lines from_chars one (map print x.bytes ∷ text print sections) s'
          | stopped s' r ↦ stopped s' r
        ])
        (load_address-print one x.address s fits.0)
      ∙ ap
          (λ (q : Progress). elim q [
            | going s' ↦ load_lines from_chars two (text print sections) s'
            | stopped s' r ↦ stopped s' r
          ])
          (load_line-print two x.bytes (at_section s x.address) refl fits.1 fits.2)
      ∙ load_lines-text two sections (placed (at_section s x.address) x.bytes) a

  loaded-HasStored :
      (sections : List Section) (s : LoadState) (cells : Array ℕ) (count : ℕ)
      → AllFit sections
      → HasStored s cells count
      → HasStored (loaded s sections) (store_sections cells sections) (count + total sections)
  loaded-HasStored [] s cells count a h = subst (HasStored s cells) (omega arith) h
  loaded-HasStored (x ∷ sections) s cells count (fits, a) h =
      let after = store_bytes cells x.address x.bytes in
      subst (HasStored (loaded s (x ∷ sections)) (store_sections after sections)) (omega arith) (
        loaded-HasStored sections (placed (at_section s x.address) x.bytes) after
          (count + length x.bytes) a
          (placed-HasStored x.bytes (at_section s x.address) cells count fits.2
            (record { cells_are = h.cells_are; counted = h.counted; told = h.told })))

  stored_finish :
      (input : Input) (s : LoadState) (cells : Array ℕ) (count : ℕ)
      → input.bad ≡ false
      → HasStored s cells count
      → let (m, r) = finish input (going s) in
        (m.bytes ≡ cells)
        × (m.load_byte_count ≡ count % 2 ^ 64)
        × (r.loaded_byte_count ≡ count % 2 ^ 64)
        × (load_ok r ≡ true)
  unfolding finish make_result load_ok
  stored_finish input s cells count fine h = rw fine (h.cells_are, h.told, h.counted, refl)

  -- A text with the sections' addresses and bytes, printed in a way that the library's parser reads
  -- back, loads: the cells of the image are zero but for the bytes of the sections, stored from their
  -- addresses on in the order of the text, and the image and the result count the bytes of all
  -- sections, in a `size_t`; the image has nothing but zeros above its highest loaded address, which
  -- lies in the memory.
  pub load-text :
      (sections : List Section)
      → AllFit sections
      → let (m, r) = load from_chars (record { lines = text print sections; bad = false }) in
        IsImage m
        × (m.bytes ≡ store_sections (fill 0) sections)
        × (m.load_byte_count ≡ total sections % 2 ^ 64)
        × (r.loaded_byte_count ≡ total sections % 2 ^ 64)
        × (load_ok r ≡ true)
  unfolding load
  load-text sections a =
      let input : Input = record { lines = text print sections; bad = false } in
      let stored =
        loaded-HasStored sections load_start (fill 0) 0 a
          (record { cells_are = refl; counted = refl; told = refl }) in
      let rest =
        subst
          (λ (q : Progress).
            let (m, r) = finish input q in
            (m.bytes ≡ store_sections (fill 0) sections)
            × (m.load_byte_count ≡ total sections % 2 ^ 64)
            × (r.loaded_byte_count ≡ total sections % 2 ^ 64)
            × (load_ok r ≡ true))
          (sym (load_lines-text 0 sections load_start a))
          (stored_finish input (loaded load_start sections) (store_sections (fill 0) sections)
            (total sections) refl
            (subst (HasStored (loaded load_start sections) (store_sections (fill 0) sections))
              (omega arith) stored)) in
      ((load-IsImage from_chars input).0, rest.0, rest.1, rest.2, rest.3)
