-- ===== src/ReorderBuffer/Youngest.antt =====
-- The youngest instruction in flight that writes a register, on the queue of src/tomasulo/reorder_buffer.cpp.
use risc_v_cpu_simulator.Base.{
  ℕ, zero, suc, ◌+◌, ◌%◌, ◌<◌, ◌≡◌, ◌≢◌, refl, ap, arith, true, false, ◌&&◌, ◌==◌, if◌then◌else◌,
  Array, Option, none, some, [], ◌∷◌, ◌++◌, map,
}
use mathlib.Core.Option.{or_else}
use mathlib.Core.Path.{subst}
use risc_v_cpu_simulator.Types.{RobTag, no_tag, tag_eq}
use risc_v_cpu_simulator.ReorderBuffer.{
  RobEntry, capacity, ReorderBuffer, RobInputs, complete_entry,
}
use risc_v_cpu_simulator.ReorderBuffer.Invariant.{IsRob}
use risc_v_cpu_simulator.ReorderBuffer.Queue.{Queue, window, contents, complete, rest}

-- The tag of the youngest instruction of a queue that writes the register, if there is one.
unfoldable pub youngest : ℕ → Queue → RobTag
youngest reg [] = no_tag
youngest reg (e ∷ q) =
    let later = youngest reg q in
    if later.valid then later else (if e.writes_rd && e.rd == reg then e.tag else no_tag)

-- That instruction itself.
unfoldable pub youngest_entry : ℕ → Queue → Option RobEntry
youngest_entry reg [] = none
youngest_entry reg (e ∷ q) =
    or_else (youngest_entry reg q) (if e.writes_rd && e.rd == reg then some e else none)

-- A completion changes no destination.
pub youngest-complete :
    (reg : ℕ) (i : RobInputs) (q : Queue) → youngest reg (map (complete i) q) ≡ youngest reg q
unfolding youngest complete_entry
youngest-complete reg i [] = refl
youngest-complete reg i (e ∷ q) = ground (arith, youngest-complete reg i q)

pub youngest-append :
    (reg : ℕ) (q : Queue) (e : RobEntry)
    → e.tag.valid ≡ true
    → youngest reg (q ++ (e ∷ [])) ≡ (if e.writes_rd && e.rd == reg then e.tag else youngest reg q)
unfolding youngest
youngest-append reg [] e v = ground arith
youngest-append reg (a ∷ q) e v = ground (arith, youngest-append reg q e v)

-- Occupied slots carry their own tags.
abbrev AreTagged : Array RobEntry → ℕ → ℕ → Type 0
AreTagged cells h n =
    (k : ℕ)
    → k < n
    → ((cells ((h + k) % capacity)).tag.valid ≡ true)
      × ((cells ((h + k) % capacity)).tag.index ≡ (h + k) % capacity)

AreTagged-first :
    (cells : Array RobEntry) (h n : ℕ)
    → h < capacity
    → AreTagged cells h (suc n)
    → ((cells h).tag.valid ≡ true) × ((cells h).tag.index ≡ h)
AreTagged-first cells h n p t = ground (arith, t 0)

AreTagged-next :
    (cells : Array RobEntry) (h n : ℕ)
    → AreTagged cells h (suc n)
    → AreTagged cells ((h + 1) % capacity) n
AreTagged-next cells h n t k l =
    subst (λ s. ((cells s).tag.valid ≡ true) × ((cells s).tag.index ≡ s)) (omega arith)
      (t (k + 1) (omega arith))

-- If there is none there is no tag at all.
youngest-none :
    (reg : ℕ) (cells : Array RobEntry) (h n : ℕ)
    → h < capacity
    → AreTagged cells h n
    → (youngest reg (window cells h n)).valid ≡ false
    → youngest reg (window cells h n) ≡ no_tag
unfolding youngest
youngest-none reg cells h zero p t v = refl
youngest-none reg cells h (suc n) p t v = ground (arith, AreTagged-first cells h n p t)

-- The tag names one of the slots.
youngest-apart :
    (reg : ℕ) (cells : Array RobEntry) (h n j : ℕ)
    → h < capacity
    → AreTagged cells h n
    → ((k : ℕ) → k < n → (h + k) % capacity ≢ j)
    → (youngest reg (window cells h n)).valid ≡ true
    → (youngest reg (window cells h n)).index ≢ j
unfolding youngest
youngest-apart reg cells h zero j p t a v = absurd cc
youngest-apart reg cells h (suc n) j p t a v = ground (
  arith,
  AreTagged-first cells h n p t,
  a 0,
  youngest-apart reg cells ((h + 1) % capacity) n j (omega arith) (AreTagged-next cells h n t)
      λ k l. omega (arith, a (k + 1) (omega arith)),
)

module _ (r : ReorderBuffer) (v : IsRob r) where
  tagged_contents : AreTagged r.cur r.head r.count
  tagged_contents k l =
      let slot = (r.head + k) % capacity in
      let tag =
        v.tagged slot (omega arith)
          (ground (arith, v.occupied slot (omega arith), v.head_in, v.count_in)) in
      (ap (λ (t : RobTag). t.valid) tag, ap (λ (t : RobTag). t.index) tag)

  pub youngest_none :
      (reg : ℕ) → (youngest reg (contents r)).valid ≡ false → youngest reg (contents r) ≡ no_tag
  youngest_none reg = youngest-none reg r.cur r.head r.count v.head_in tagged_contents

  -- When the head leaves, its tag goes, and that of every other instruction stays.
  pub youngest-rest :
      (reg : ℕ)
      → (r.count == 0) ≡ false
      → let head = r.cur r.head in
        youngest reg (rest (contents r)) ≡ (
          if head.writes_rd && head.rd == reg && tag_eq (youngest reg (contents r)) head.tag
          then no_tag
          else youngest reg (contents r))
  unfolding youngest tag_eq
  youngest-rest reg pos = by r.count refl
    where
      by :
          (n : ℕ)
          → r.count ≡ n
          → let head = r.cur r.head in
            let q = window r.cur r.head n in
            youngest reg (rest q) ≡ (
              if head.writes_rd && head.rd == reg && tag_eq (youngest reg q) head.tag
              then no_tag
              else youngest reg q)
      by zero e = absurd (ground arith)
      by (suc n) e =
          let t : AreTagged r.cur r.head (suc n) =
            subst (AreTagged r.cur r.head) e tagged_contents in
          let next = AreTagged-next r.cur r.head n t in
          let h = (r.head + 1) % capacity in
          ground (
            arith,
            AreTagged-first r.cur r.head n v.head_in t,
            youngest-none reg r.cur h n (omega arith) next,
            youngest-apart reg r.cur h n r.head (omega arith) next
                (λ k l. omega (arith, v.head_in, v.count_in)),
          )
