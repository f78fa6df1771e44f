-- ===== src/Base/Cells.antt =====
-- `std::array` as a map from indices to cells. What lies beyond the array's size is never read or
-- written by the code, which the developments of the components prove of their indices.
use Prim.Native.Nat.{ℕ, suc}
use mathlib.Core.List.{List, [], ◌∷◌}
use mathlib.Core.Path.{◌≡◌}
use mathlib.Core.Logic.{◌≢◌}
use native.Mathlib.Omega.{arith}
use risc_v_cpu_simulator.Base.Tests.{◌==◌, if◌then◌else◌}

abbrev pub Array {ℓ} : Type ℓ → Type ℓ
Array A = ℕ → A

module _ {ℓ} {A : Type ℓ} where
  -- `cells[i] = v`
  abbrev pub update : Array A → ℕ → A → Array A
  update cells i v j = if i == j then v else cells j

  -- `cells.fill(v)`
  abbrev pub fill : A → Array A
  fill v j = v

  pub update_self : (cells : Array A) (i : ℕ) (v : A) → update cells i v i ≡ v
  update_self cells i v = ground arith

  pub update_ne : (cells : Array A) (i j : ℕ) (v : A) → i ≢ j → update cells i v j ≡ cells j
  update_ne cells i j v h = ground arith

  abbrev pub length : List A → ℕ
  length [] = 0
  length (x ∷ xs) = suc (length xs)
