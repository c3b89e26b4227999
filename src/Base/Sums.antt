-- ===== src/Base/Sums.antt =====
-- Sums of integers.

use native.Mathlib.Omega.{arith}
use others_addons.Base.Int.{ℤ, pos, negsuc, ◌+ℤ◌}
use mathlib.Core.Path.{◌≡◌, refl}

pub +ℤ-comm : (a b : ℤ) → (a +ℤ b) ≡ (b +ℤ a)
unfolding ◌+ℤ◌
+ℤ-comm (pos a) (pos b) = ground arith
+ℤ-comm (negsuc a) (negsuc b) = ground arith
+ℤ-comm (pos a) (negsuc b) = refl
+ℤ-comm (negsuc a) (pos b) = refl

pub +ℤ-assoc : (a b c : ℤ) → ((a +ℤ b) +ℤ c) ≡ (a +ℤ (b +ℤ c))
unfolding ◌+ℤ◌
+ℤ-assoc (pos a) (pos b) (pos c) = ground arith
+ℤ-assoc (pos a) (pos b) (negsuc c) = ground arith
+ℤ-assoc (pos a) (negsuc b) (pos c) = ground arith
+ℤ-assoc (pos a) (negsuc b) (negsuc c) = ground arith
+ℤ-assoc (negsuc a) (pos b) (pos c) = ground arith
+ℤ-assoc (negsuc a) (pos b) (negsuc c) = ground arith
+ℤ-assoc (negsuc a) (negsuc b) (pos c) = ground arith
+ℤ-assoc (negsuc a) (negsuc b) (negsuc c) = ground arith

pub +ℤ-zero : (a : ℤ) → (a +ℤ pos 0) ≡ a
unfolding ◌+ℤ◌
+ℤ-zero (pos a) = ground arith
+ℤ-zero (negsuc a) = ground arith
