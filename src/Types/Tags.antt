-- ===== src/Types/Tags.antt =====
-- The comparison of tags in include/common/types.hpp.
use risc_v_cpu_simulator.Base.{◌≡◌, arith, true}
use risc_v_cpu_simulator.Types.{RobTag, tag_eq}

pub tag_eq_self : (t : RobTag) → tag_eq t t ≡ true
unfolding tag_eq
tag_eq_self t = ground arith

pub tag_eq-eq : (a b : RobTag) → tag_eq a b ≡ true → a ≡ b
unfolding tag_eq
tag_eq-eq a b h = ground arith
