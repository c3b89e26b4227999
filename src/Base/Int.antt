-- ===== src/Base/Int.antt =====
-- Integers, for the settings that the program reads with `int`.
use Prim.Native.Nat.{ℕ, suc, ◌+◌, ◌-◌}
use others_addons.Base.Tests.{leb, if◌then◌else◌}

-- `negsuc n` is -(n + 1).
pub data ℤ : Type 0 where
  pos : ℕ → ℤ
  negsuc : ℕ → ℤ

infixl 60 ◌+ℤ◌
unfoldable pub ◌+ℤ◌ : ℤ → ℤ → ℤ
pos a +ℤ pos b = pos (a + b)
negsuc a +ℤ negsuc b = negsuc (suc (a + b))
pos a +ℤ negsuc b = if leb a b then negsuc (b - a) else pos (a - suc b)
negsuc a +ℤ pos b = if leb b a then negsuc (a - b) else pos (b - suc a)
