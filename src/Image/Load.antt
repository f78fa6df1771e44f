-- ===== src/Image/Load.antt =====
-- The loader of src/memory/image.cpp: what holds of the memory after any input, well-formed or not.
use risc_v_cpu_simulator.Base.{ℕ, ◌+◌, ◌%◌, ◌^◌, ◌<◌, ◌≡◌, refl, arith}
use risc_v_cpu_simulator.Base.{true, false, Option, none, some, List, [], ◌∷◌}
use risc_v_cpu_simulator.Base.{ltb, leb, ◌==◌, match_keeps, not, sym, ◌∙◌, if_keeps}
use risc_v_cpu_simulator.Image.{MemoryImage, memory_size, Token, FromChars, LoadState, Input}
use risc_v_cpu_simulator.Image.{Progress, going, stopped, make_result, raise_highest, place_byte}
use risc_v_cpu_simulator.Image.{
  parse_hex, load_address, load_byte, load_token, load_line, load_lines,
}
use risc_v_cpu_simulator.Image.{load_start, load, finish, load_ok, invalid_address, invalid_byte}
use risc_v_cpu_simulator.Image.Access.{IsBytes}

-- An address above every loaded one.
abbrev pub Above : Option ℕ → ℕ → Type 0
Above none a = Unit {0}
Above (some highest) a = highest < a

abbrev pub InMemory : Option ℕ → Type 0
InMemory none = Unit {0}
InMemory (some highest) = highest < memory_size

-- The image is that of a memory: bytes in the cells, nothing above the highest loaded address,
-- which lies in the memory.
pub record IsImage (m : MemoryImage) : Type 0 where
  pub bytes : IsBytes m
  pub untouched : (a : ℕ) → Above m.highest_loaded_address a → m.bytes a ≡ 0
  pub inside : InMemory m.highest_loaded_address

pub record IsLoading (s : LoadState) : Type 0 where
  pub image : IsImage s.image
  pub counted : s.image.load_byte_count ≡ s.bytes_loaded

Above-raise : (h : Option ℕ) (n a : ℕ) → Above (raise_highest h n) a → Above h a × (n < a)
unfolding raise_highest
Above-raise none n a = λ p. (tt, p)
Above-raise (some h) n a =
    if_keeps (λ o. Above o a → (h < a) × (n < a)) (ltb h n) (λ e p. ground arith)
      λ e p. ground arith

InMemory-raise :
    (h : Option ℕ) (n : ℕ) → InMemory h → n < memory_size → InMemory (raise_highest h n)
unfolding raise_highest
InMemory-raise none n p q = q
InMemory-raise (some h) n p q = if_keeps InMemory (ltb h n) (λ _. q) (λ _. p)

place_byte-IsLoading :
    (s : LoadState) (byte : ℕ)
    → IsLoading s
    → s.current_address < memory_size
    → IsLoading (place_byte s byte)
unfolding place_byte
place_byte-IsLoading s byte v h = record {
  image = record {
    bytes = λ a. ground (arith, v.image.bytes a);
    untouched = λ a p.
        let above = Above-raise s.image.highest_loaded_address (s.current_address % 2 ^ 32) a p in
        ground (arith, v.image.untouched a above.0, above.1);
    inside =
        InMemory-raise s.image.highest_loaded_address (s.current_address % 2 ^ 32) v.image.inside
          (omega arith);
  };
  counted = refl;
}

-- What holds wherever the loop stands: if it has stopped, the result counts the bytes placed and
-- reports a failure.
abbrev Kept : Progress → Type 0
Kept (going s) = IsLoading s
Kept (stopped s r) = IsLoading s × (r.loaded_byte_count ≡ s.bytes_loaded) × (load_ok r ≡ false)

start-IsLoading : IsLoading load_start
start-IsLoading = record {
  image = record { bytes = λ a. omega arith; untouched = λ a p. refl; inside = tt };
  counted = refl;
}

then_Kept :
    (p : Progress) (next : LoadState → Progress)
    → Kept p
    → ((s : LoadState) → IsLoading s → Kept (next s))
    → Kept (elim p [ going s ↦ next s | stopped s r ↦ stopped s r ])
then_Kept (going s) next v h = h s v
then_Kept (stopped s r) next v h = v

module _ (from_chars : Token → FromChars) where
  load_address-Kept :
      (line : ℕ) (token text : Token) {s : LoadState}
      → IsLoading s
      → Kept (load_address from_chars line token text s)
  unfolding load_address make_result load_ok
  load_address-Kept line token text {s} v =
      match_keeps Kept (parse_hex from_chars text)
        (stopped s (make_result s invalid_address line token)) _ (v, refl, refl)
        λ n _.
          if_keeps Kept (leb memory_size n) (λ _. (v, refl, refl))
            λ _. record { image = v.image; counted = v.counted }

  load_byte-Kept :
      (line : ℕ) (token : Token) {s : LoadState}
      → IsLoading s
      → Kept (load_byte from_chars line token s)
  unfolding load_byte make_result load_ok
  load_byte-Kept line token {s} v =
      if_keeps Kept (not s.has_current_address) (λ _. (v, refl, refl))
        λ _.
          match_keeps Kept (parse_hex from_chars token)
            (stopped s (make_result s invalid_byte line token)) _ (v, refl, refl)
            λ n _.
              if_keeps Kept (ltb 0xff n) (λ _. (v, refl, refl))
                λ _.
                  if_keeps Kept (leb memory_size s.current_address) (λ _. (v, refl, refl))
                    λ e. place_byte-IsLoading s n v (ground arith)

  load_token-Kept :
      (line : ℕ) (token : Token) {s : LoadState}
      → IsLoading s
      → Kept (load_token from_chars line token s)
  unfolding load_token
  load_token-Kept line [] v = load_byte-Kept line [] v
  load_token-Kept line (c ∷ text) v =
      if_keeps Kept (c == b'@') (λ _. load_address-Kept line (c ∷ text) text v)
        λ _. load_byte-Kept line (c ∷ text) v

  load_line-Kept :
      (line : ℕ) (tokens : List Token) {s : LoadState}
      → IsLoading s
      → Kept (load_line from_chars line tokens s)
  unfolding load_line
  load_line-Kept line [] v = v
  load_line-Kept line (token ∷ tokens) {s} v =
      then_Kept (load_token from_chars line token s) (load_line from_chars line tokens)
        (load_token-Kept line token v) λ s'. load_line-Kept line tokens {s = s'}

  load_lines-Kept :
      (n : ℕ) (lines : List (List Token)) {s : LoadState}
      → IsLoading s
      → Kept (load_lines from_chars n lines s)
  unfolding load_lines
  load_lines-Kept n [] v = v
  load_lines-Kept n (line ∷ lines) {s} v =
      then_Kept (load_line from_chars ((n + 1) % 2 ^ 64) line s)
        (load_lines from_chars ((n + 1) % 2 ^ 64) lines) (load_line-Kept ((n + 1) % 2 ^ 64) line v)
        λ s'. load_lines-Kept ((n + 1) % 2 ^ 64) lines {s = s'}

finished :
    (input : Input) (p : Progress)
    → Kept p
    → let (m, r) = finish input p in
      IsImage m
      × (r.loaded_byte_count ≡ m.load_byte_count)
      × (load_ok r ≡ true → (input.bad ≡ false))
unfolding make_result load_ok finish
finished input (going s) v = (v.image, sym v.counted, ground arith)
finished input (stopped s r) v = (v.0.image, v.1 ∙ sym v.0.counted, λ h. cc)

-- Whatever the input and whatever the library's number parser reports, the loader leaves bytes in
-- the cells, nothing above the highest loaded address, and that address within the memory; the count
-- in its result is that of the image, and it is a success only if the stream was not bad.
pub load-IsImage :
    (from_chars : Token → FromChars) (input : Input)
    → let (m, r) = load from_chars input in
      IsImage m × (r.loaded_byte_count ≡ m.load_byte_count) × (load_ok r ≡ true → input.bad ≡ false)
unfolding load
load-IsImage from_chars input =
    finished input (load_lines from_chars 0 input.lines load_start)
      (load_lines-Kept from_chars 0 input.lines start-IsLoading)
