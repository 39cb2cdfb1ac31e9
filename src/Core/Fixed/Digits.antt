-- ===== src/Core/Fixed/Digits.antt =====
-- Decimal digits: the value of a text of digits, and numbers written at a fixed width.
use native.Mathlib.Nat.{zero-add, pow-suc, div-div-eq-div-mul}
use positioncrew.Prelude.{
  ℕ, zero, suc, ◌+◌, ◌-◌, ◌*◌, ◌/◌, ◌%◌, ◌^◌, ◌≤◌, ◌<◌, ◌≡◌, refl, sym, ap, ◌∙◌, [], ◌∷◌, ◌++◌,
  arith, tests, lt→ltb, Text, ltb, length, take, take-all, take-append, replicate, pad_start,
  length-append, is_digit, all, all-append, true, inl, inr, Bool-cases,
}
use mathlib.Core.List.{append_assoc}
use positioncrew.Core.Fixed.{value_from, digits}

-- 10 ^ n as a product, for the induction steps.
pub pow-ten-suc : (n : ℕ) → 10 ^ suc n ≡ 10 * 10 ^ n
pow-ten-suc n = omega (arith, pow-suc 10 n)

pub pow-ten-pos : (n : ℕ) → 0 < 10 ^ n
pow-ten-pos zero = omega arith
pow-ten-pos (suc n) = omega (arith, pow-ten-pos n, pow-ten-suc n)

pub pow-ten-add : (m n : ℕ) → 10 ^ (m + n) ≡ 10 ^ m * 10 ^ n
pow-ten-add zero n = rw zero-add (omega arith)
pow-ten-add (suc m) n =
    let e : suc m + n ≡ suc (m + n) = omega arith in
    rw e (
      omega
        (arith, pow-ten-suc (m + n), pow-ten-add m n, ap (λ (t : ℕ). t * 10 ^ n) (pow-ten-suc m)))

-- The accumulator counts as the digits in front.
pub value_from-append :
    (acc : ℕ) (xs ys : Text) → value_from acc (xs ++ ys) ≡ value_from (value_from acc xs) ys
unfolding value_from
value_from-append acc [] ys = refl
value_from-append acc (x ∷ xs) ys = value_from-append (acc * 10 + (x - b'0')) xs ys

pub value_from-zeros : (n acc : ℕ) → value_from acc (replicate n b'0') ≡ acc * 10 ^ n
unfolding value_from
value_from-zeros zero acc = omega arith
value_from-zeros (suc n) acc =
    value_from-zeros n (acc * 10 + 0) ∙ omega (arith, ap (λ (t : ℕ). acc * t) (pow-ten-suc n))

-- `n` in exactly `k` digits.
pub fixed_digits : ℕ → ℕ → Text
fixed_digits zero n = []
fixed_digits (suc k) n = fixed_digits k (n / 10) ++ (b'0' + n % 10) ∷ []

pub length-fixed_digits : (k n : ℕ) → length (fixed_digits k n) ≡ k
unfolding fixed_digits
length-fixed_digits zero n = refl
length-fixed_digits (suc k) n = omega (
  arith,
  length-fixed_digits k (n / 10),
  length-append (fixed_digits k (n / 10)) ((b'0' + n % 10) ∷ []),
)

pub fixed_digits-is_digit : (k n : ℕ) → all is_digit (fixed_digits k n) ≡ true
unfolding fixed_digits
fixed_digits-is_digit zero n = refl
fixed_digits-is_digit (suc k) n =
    all-append is_digit (fixed_digits k (n / 10)) _ (fixed_digits-is_digit k (n / 10))
      (ground arith)

pub value_from-fixed_digits : (k n : ℕ) → n < 10 ^ k → value_from 0 (fixed_digits k n) ≡ n
unfolding fixed_digits value_from
value_from-fixed_digits zero n h = omega arith
value_from-fixed_digits (suc k) n h =
    let ih = value_from-fixed_digits k (n / 10) (omega (arith, pow-ten-suc k)) in
    rw (value_from-append 0 (fixed_digits k (n / 10)) ((b'0' + n % 10) ∷ []), ih) (omega arith)

replicate-concat : (k c : ℕ) → replicate k c ++ c ∷ [] ≡ replicate (suc k) c
replicate-concat zero c = refl
replicate-concat (suc k) c = ap (λ t. c ∷ t) (replicate-concat k c)

pad_start-concat :
    (k c x : ℕ) (xs : Text) → pad_start (suc k) c (xs ++ x ∷ []) ≡ pad_start k c xs ++ x ∷ []
pad_start-concat k c x xs =
    let shorter : suc k - length (xs ++ x ∷ []) ≡ k - length xs =
      omega (arith, length-append xs (x ∷ [])) in
    rw shorter (sym (append_assoc (replicate (k - length xs) c) xs (x ∷ [])))

fixed_digits-zero : (k : ℕ) → fixed_digits k 0 ≡ replicate k b'0'
unfolding fixed_digits
fixed_digits-zero zero = refl
fixed_digits-zero (suc k) = rw (fixed_digits-zero k) (replicate-concat k b'0')

-- `padStart` fills the digits of a number up to the fixed width.
pub pad_start-digits :
    (k f n : ℕ)
    → n < f
    → n < 10 ^ suc k
    → pad_start (suc k) b'0' (digits f n) ≡ fixed_digits (suc k) n
unfolding digits fixed_digits
pad_start-digits k zero n lt h = elim lt [ ]
pad_start-digits zero (suc f) n lt h = rw (lt→ltb n 10 h) (ground arith)
pad_start-digits (suc k) (suc f) n lt h = elim (Bool-cases (ltb n 10)) [
  | inl small ↦
      let none_left : n / 10 ≡ 0 = omega tests in
      let front : fixed_digits (suc k) (n / 10) ≡ replicate (suc k) b'0' =
        rw none_left (fixed_digits-zero (suc k)) in
      let shorter : suc (suc k) - 1 ≡ suc k = omega arith in
      let last : n % 10 ≡ n = omega tests in rw (small, shorter, last, front)
  | inr large ↦
      rw (large, pad_start-concat (suc k) b'0' (b'0' + n % 10) (digits f (n / 10)))
        (ap (λ t. t ++ (b'0' + n % 10) ∷ [])
          (pad_start-digits k f (n / 10) (omega tests) (omega (arith, pow-ten-suc (suc k)))))
]

-- A prefix of the fixed-width digits is a quotient.
pub take-fixed_digits : (k j n : ℕ) → take k (fixed_digits (j + k) n) ≡ fixed_digits k (n / 10 ^ j)
unfolding fixed_digits
take-fixed_digits k zero n =
    let same : 0 + k ≡ k = omega arith in
    let whole : n / 1 ≡ n = omega arith in
    rw (same, whole) (take-all k (fixed_digits k n) (length-fixed_digits k n))
take-fixed_digits k (suc j) n =
    let longer : suc j + k ≡ suc (j + k) = omega arith in
    let enough : k ≤ length (fixed_digits (j + k) (n / 10)) =
      omega (arith, length-fixed_digits (j + k) (n / 10)) in
    let quotient : n / 10 / 10 ^ j ≡ n / 10 ^ suc j =
      rw (pow-ten-suc j) (div-div-eq-div-mul n 10 (10 ^ j)) in
    rw (longer, take-append k (fixed_digits (j + k) (n / 10)) ((b'0' + n % 10) ∷ []) enough)
      (rw (← quotient) (take-fixed_digits k j (n / 10)))

-- The digits of a number denote it.
pub value_from-digits : (f n : ℕ) → n < f → value_from 0 (digits f n) ≡ n
unfolding digits value_from
value_from-digits zero n lt = elim lt [ ]
value_from-digits (suc f) n lt = elim (Bool-cases (ltb n 10)) [
  | inl small ↦ rw small (omega arith)
  | inr large ↦
      rw
        (
          large,
          value_from-append 0 (digits f (n / 10)) ((b'0' + n % 10) ∷ []),
          value_from-digits f (n / 10) (omega tests),
        )
        (omega arith)
]
