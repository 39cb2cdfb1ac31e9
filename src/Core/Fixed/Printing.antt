-- ===== src/Core/Fixed/Printing.antt =====
-- The shape of printed numbers: what `parse_fixed` finds in them.
use positioncrew.Prelude.{
  ℕ, zero, suc, ◌+◌, ◌-◌, ◌*◌, ◌/◌, ◌^◌, ◌≤◌, ◌<◌, ◌≡◌, refl, [], ◌∷◌, ◌++◌, arith, tests, Text,
  ltb, ◌==◌, length, pad_end, nil_of_length-zero, is_digit, all, all-append, true, false, Bool, not,
  inl, inr, Bool-cases, ◌&&◌, and-true,
}
use positioncrew.Core.Fixed.{value_from, digits, strip_zeros, span_digits, is_whole}
use positioncrew.Core.Fixed.Digits.{value_from-zeros}

pub digits-is_digit : (f n : ℕ) → all is_digit (digits f n) ≡ true
unfolding digits
digits-is_digit zero n = refl
digits-is_digit (suc f) n = elim (Bool-cases (ltb n 10)) [
  | inl small ↦ rw small (ground arith)
  | inr large ↦
      rw large
        (all-append is_digit (digits f (n / 10)) _ (digits-is_digit f (n / 10)) (ground arith))
]

-- A text that begins, and not with the digit 0.
abbrev leads : Text → Bool
leads [] = false
leads (c ∷ s) = not (c == b'0')

leads-append : (xs ys : Text) → leads xs ≡ true → leads (xs ++ ys) ≡ true
leads-append [] ys h = ground arith
leads-append (x ∷ xs) ys h = h

leads-digits : (f n : ℕ) → n < f → 0 < n → leads (digits f n) ≡ true
unfolding digits
leads-digits zero n lt h = elim lt [ ]
leads-digits (suc f) n lt h = elim (Bool-cases (ltb n 10)) [
  | inl small ↦ rw small (ground arith)
  | inr large ↦
      rw large
        (leads-append (digits f (n / 10)) _ (leads-digits f (n / 10) (omega tests) (omega tests)))
]

is_whole_of_leads : (s : Text) → leads s ≡ true → is_whole s ≡ true
is_whole_of_leads [] h = ground arith
is_whole_of_leads (c ∷ []) h = refl
is_whole_of_leads (c ∷ d ∷ s) h = h

pub is_whole-digits : (f n : ℕ) → n < f → is_whole (digits f n) ≡ true
is_whole-digits zero n lt = elim lt [ ]
is_whole-digits (suc f) zero lt = unfold digits in refl
is_whole-digits (suc f) (suc n) lt =
    is_whole_of_leads (digits (suc f) (suc n)) (leads-digits (suc f) (suc n) lt (omega arith))

-- What follows the digits of a printed number is nothing or a point.
abbrev pub stops : Text → Bool
stops [] = true
stops (c ∷ s) = not (is_digit c)

pub span_digits-append :
    (w r : Text) → all is_digit w ≡ true → stops r ≡ true → span_digits (w ++ r) ≡ (w, r)
unfolding span_digits
span_digits-append [] [] h k = refl
span_digits-append [] (c ∷ s) h k = ground arith
span_digits-append (x ∷ w) r h k =
    let (here, later) = and-true (is_digit x) (all is_digit w) h in
    rw (span_digits-append w r later k, here)

pub length-strip_zeros-le : (s : Text) → length (strip_zeros s) ≤ length s
unfolding strip_zeros
length-strip_zeros-le [] = omega arith
length-strip_zeros-le (c ∷ s) = ground (arith, length-strip_zeros-le s)

pub strip_zeros-is_digit : (s : Text) → all is_digit s ≡ true → all is_digit (strip_zeros s) ≡ true
unfolding strip_zeros
strip_zeros-is_digit [] h = refl
strip_zeros-is_digit (c ∷ s) h = ground (arith, strip_zeros-is_digit s)

-- Zeros that are stripped and filled in again do not change the value.
pub value_from-strip_zeros :
    (n acc : ℕ) (s : Text)
    → length s ≤ n
    → value_from acc (pad_end n b'0' (strip_zeros s)) ≡ value_from acc s * 10 ^ (n - length s)
unfolding strip_zeros value_from
value_from-strip_zeros n acc [] h =
    let all_filled : n - 0 ≡ n = omega arith in rw all_filled (value_from-zeros n acc)
value_from-strip_zeros zero acc (c ∷ s) h = elim h [ ]
value_from-strip_zeros (suc n) acc (c ∷ s) h =
    let ih = value_from-strip_zeros n (acc * 10 + (c - b'0')) s (omega arith) in
    let steps : suc n - suc (length s) ≡ n - length s = omega arith in
    elim (Bool-cases (c == b'0' && length (strip_zeros s) == 0)) [
      | inl dropped ↦
          let empty : strip_zeros s ≡ [] = nil_of_length-zero (strip_zeros s) (ground arith) in
          let digit : c - b'0' ≡ 0 = ground arith in
          let filled : suc n - 0 ≡ suc n = omega arith in
          let rest : n - 0 ≡ n = omega arith in
          rw (dropped, steps, filled, ← ih, empty, digit, rest)
      | inr kept ↦
          let fill : suc n - suc (length (strip_zeros s)) ≡ n - length (strip_zeros s) =
            omega arith in
          rw (kept, steps, fill) ih
    ]
