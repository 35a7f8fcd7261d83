-- ===== src/Integer.antt =====
-- Comparisons of int64 and int32.
use workbenches_operator.Prelude.{◌≡◌, Bool, true, false, nat_eq, arith, ◌↔◌}
use workbenches_operator.Json.{ℤ, pos, negsuc}
use workbenches_operator.Phase.{gt}

-- x == y
unfoldable pub eq_int : ℤ → ℤ → Bool
eq_int (pos x) (pos y) = nat_eq x y
eq_int (pos x) (negsuc y) = false
eq_int (negsuc x) (pos y) = false
eq_int (negsuc x) (negsuc y) = nat_eq x y

pub eq_int_iff : (x y : ℤ) → (eq_int x y ≡ true) ↔ (x ≡ y)
unfolding eq_int
eq_int_iff x y = ground arith

pub eq_int_refl : (x : ℤ) → eq_int x x ≡ true
unfolding eq_int
eq_int_refl x = ground arith

pub gt_irrefl : (x : ℤ) → gt x x ≡ false
unfolding gt
gt_irrefl x = ground arith

-- Not below, and not below again.
pub gt_trans : (x y z : ℤ) → gt x y ≡ true → gt z y ≡ false → gt x z ≡ true
unfolding gt
gt_trans x y z h k = ground arith

pub gt_asym : (x y : ℤ) → gt x y ≡ true → gt y x ≡ false
unfolding gt
gt_asym x y h = ground arith

pub le_trans : (x y z : ℤ) → gt x y ≡ false → gt y z ≡ false → gt x z ≡ false
unfolding gt
le_trans x y z h k = ground arith
