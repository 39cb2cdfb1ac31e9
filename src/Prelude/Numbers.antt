-- ===== src/Prelude/Numbers.antt =====
-- Division with a remainder, as bounds that `omega` can use with the products as unknowns.
use Prim.Native.Nat.{ℕ, zero, suc, ◌+◌, ◌*◌, ◌/◌, ◌≤◌, ◌<◌}
use native.Mathlib.Omega.{arith}
use native.Mathlib.Nat.{div-mul-le_self, lt-div-mul-add, le-div_iff_mul-le, div-lt_iff_lt-mul}

pub div-mul-le : (n m : ℕ) → n / m * m ≤ n
div-mul-le n m = div-mul-le_self n m

pub lt-div-mul : (n m : ℕ) → 0 < m → n < n / m * m + m
lt-div-mul n m h = lt-div-mul-add h

-- `x ≤ y / k` from the product, and back.
pub le-div : (k x y : ℕ) → 0 < k → x * k ≤ y → x ≤ y / k
le-div k x y p h = (le-div_iff_mul-le p).1 h

pub mul-le_of_le-div : (k x y : ℕ) → 0 < k → x ≤ y / k → x * k ≤ y
mul-le_of_le-div k x y p h = (le-div_iff_mul-le p).0 h

pub div-lt : (k x y : ℕ) → 0 < k → x < y * k → x / k < y
div-lt k x y p h = (div-lt_iff_lt-mul p).1 h

pub lt-mul_of_div-lt : (k x y : ℕ) → 0 < k → x / k < y → x < y * k
lt-mul_of_div-lt k x y p h = (div-lt_iff_lt-mul p).0 h

pub mul_mono : (a b c d : ℕ) → a ≤ b → c ≤ d → a * c ≤ b * d
mul_mono a b c d h k = grind arith

pub div_mono : (a b k : ℕ) → 0 < k → a ≤ b → a / k ≤ b / k
div_mono a b k p h = le-div k (a / k) b p (omega (arith, div-mul-le a k))

-- A factor of a product above something is not zero.
pub factor-pos : (a b c : ℕ) → c < a * b → 0 < a
factor-pos zero b c h = absurd (omega arith)
factor-pos (suc a) b c h = omega arith
