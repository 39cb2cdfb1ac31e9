-- ===== src/Prelude/Integers.antt =====
-- Integers over the native numbers; `negsuc n` is -(n + 1).
use positioncrew.Prelude.{
  ℕ, suc, ◌+◌, ◌-◌, ◌*◌, ◌/◌, ◌≤◌, ◌<◌, ◌≡◌, refl, Bool, true, false, arith, leb, if◌then◌else◌,
  Bool-cases, inl, inr,
}
use positioncrew.Prelude.Numbers.{div-mul-le, lt-div-mul}

pub data ℤ : Type 0 where
  pos : ℕ → ℤ
  negsuc : ℕ → ℤ

abbrev pub pos_part : ℤ → ℕ
pos_part (pos n) = n
pos_part (negsuc n) = 0

abbrev pub neg_part : ℤ → ℕ
neg_part (pos n) = 0
neg_part (negsuc n) = suc n

-- a - b, as an integer.
abbrev pub sub_ℕ : ℕ → ℕ → ℤ
sub_ℕ a b = if leb b a then pos (a - b) else negsuc (b - a - 1)

infixl 65 ◌+ℤ◌ ◌-ℤ◌
infix 50 ◌≤ℤ◌ ◌<ℤ◌
unfoldable pub ◌+ℤ◌ : ℤ → ℤ → ℤ
a +ℤ b = sub_ℕ (pos_part a + pos_part b) (neg_part a + neg_part b)

unfoldable pub ◌-ℤ◌ : ℤ → ℤ → ℤ
a -ℤ b = sub_ℕ (pos_part a + neg_part b) (neg_part a + pos_part b)

-- A multiple of a natural number.
unfoldable pub times : ℤ → ℕ → ℤ
times (pos n) k = pos (n * k)
times (negsuc n) k = sub_ℕ 0 (suc n * k)

-- The quotient rounded down.
unfoldable pub floor_div : ℤ → ℕ → ℤ
floor_div (pos n) k = pos (n / k)
floor_div (negsuc n) k = negsuc (n / k)

unfoldable pub lebℤ : ℤ → ℤ → Bool
lebℤ a b = leb (pos_part a + neg_part b) (pos_part b + neg_part a)

unfoldable pub minℤ : ℤ → ℤ → ℤ
minℤ a b = if lebℤ a b then a else b

unfoldable pub maxℤ : ℤ → ℤ → ℤ
maxℤ a b = if lebℤ a b then b else a

abbrev pub ◌≤ℤ◌ : ℤ → ℤ → Type 0
a ≤ℤ b = pos_part a + neg_part b ≤ pos_part b + neg_part a

abbrev pub ◌<ℤ◌ : ℤ → ℤ → Type 0
a <ℤ b = pos_part a + neg_part b < pos_part b + neg_part a

pub +ℤ_parts :
    (a b : ℤ)
    → pos_part (a +ℤ b) + neg_part a + neg_part b ≡ neg_part (a +ℤ b) + pos_part a + pos_part b
unfolding ◌+ℤ◌
+ℤ_parts a b = ground arith

pub -ℤ_parts :
    (a b : ℤ)
    → pos_part (a -ℤ b) + neg_part a + pos_part b ≡ neg_part (a -ℤ b) + pos_part a + neg_part b
unfolding ◌-ℤ◌
-ℤ_parts a b = ground arith

pub times_parts :
    (a : ℤ) (k : ℕ)
    → (pos_part (times a k) ≡ pos_part a * k) × (neg_part (times a k) ≡ neg_part a * k)
unfolding times
times_parts (pos n) k = (refl, omega arith)
times_parts (negsuc n) k = (ground arith, ground arith)

-- The quotient rounded down is the largest integer of which the multiple is not above.
pub floor_div-bounds :
    (a : ℤ) (k : ℕ)
    → 0 < k
    → (times (floor_div a k) k ≤ℤ a)
      × (pos_part a + neg_part (times (floor_div a k) k)
          < pos_part (times (floor_div a k) k) + k + neg_part a)
unfolding floor_div times
floor_div-bounds (pos n) k h =
    let below = div-mul-le n k in let above = lt-div-mul n k h in (omega arith, omega arith)
floor_div-bounds (negsuc n) k h =
    let below = div-mul-le n k in let above = lt-div-mul n k h in (ground arith, ground arith)

pub lebℤ→le : (a b : ℤ) → lebℤ a b ≡ true → a ≤ℤ b
unfolding lebℤ
lebℤ→le a b h = ground arith

pub not-lebℤ→lt : (a b : ℤ) → lebℤ a b ≡ false → b <ℤ a
unfolding lebℤ
not-lebℤ→lt a b h = ground arith

pub minℤ-bounds :
    (a b : ℤ) → (minℤ a b ≤ℤ a) × (minℤ a b ≤ℤ b) × ((c : ℤ) → c ≤ℤ a → c ≤ℤ b → c ≤ℤ minℤ a b)
unfolding minℤ lebℤ
minℤ-bounds a b = (ground arith, ground arith, λ c h k. ground arith)

pub maxℤ-bounds :
    (a b : ℤ) → (a ≤ℤ maxℤ a b) × (b ≤ℤ maxℤ a b) × ((c : ℤ) → a ≤ℤ c → b ≤ℤ c → maxℤ a b ≤ℤ c)
unfolding maxℤ lebℤ
maxℤ-bounds a b = (ground arith, ground arith, λ c h k. ground arith)

pub minℤ-either {κ} : (P : ℤ → Type κ) (a b : ℤ) → P a → P b → P (minℤ a b)
unfolding minℤ
minℤ-either P a b h k = elim (Bool-cases (lebℤ a b)) [ inl e ↦ rw e h | inr e ↦ rw e k ]

pub maxℤ-either {κ} : (P : ℤ → Type κ) (a b : ℤ) → P a → P b → P (maxℤ a b)
unfolding maxℤ
maxℤ-either P a b h k = elim (Bool-cases (lebℤ a b)) [ inl e ↦ rw e k | inr e ↦ rw e h ]

pub le→lebℤ : (a b : ℤ) → a ≤ℤ b → lebℤ a b ≡ true
unfolding lebℤ
le→lebℤ a b h = ground arith

pub lt→not-lebℤ : (a b : ℤ) → b <ℤ a → lebℤ a b ≡ false
unfolding lebℤ
lt→not-lebℤ a b h = ground arith
