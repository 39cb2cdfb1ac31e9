-- ===== src/Yield/Held.antt =====
-- The holdings by protocol that the provider builds from the positions.
use positioncrew.Prelude.{
  ℕ, ◌+◌, ◌≡◌, refl, false, List, [], ◌∷◌, map, any, arith, All, inl, inr, Bool-cases, Text,
  text_eq, text_eq_iff, text_eq_refl,
}
use positioncrew.Prelude.Dict.{Dict, lookup, insert, lookup-insert_self}
use positioncrew.Yield.{Holding, has_duplicate, protocol_of, sum_of}
use positioncrew.Yield.Plan.{amount_at}
use positioncrew.Yield.Provider.{held_by_protocol}
use positioncrew.Yield.Keys.{IsKey, IsKey-insert}
use positioncrew.Yield.Sums.{sum_amounts}

abbrev keys : Dict ℕ → List Text
keys = map (λ (e : Text × ℕ). e.0)

sum_amounts-insert :
    (k : Text) (n : ℕ) (d : Dict ℕ) → sum_amounts (insert k n d) + amount_at k d ≡ sum_amounts d + n
unfolding insert lookup
sum_amounts-insert k n [] = omega arith
sum_amounts-insert k n ((j, m) ∷ d) = elim (Bool-cases (text_eq k j)) [
  | inl same ↦ rw same (omega arith)
  | inr other ↦ rw other (omega (arith, sum_amounts-insert k n d))
]

any-keys-insert :
    (j k : Text) (n : ℕ) (d : Dict ℕ)
    → text_eq j k ≡ false
    → any (text_eq j) (keys (insert k n d)) ≡ any (text_eq j) (keys d)
unfolding insert
any-keys-insert j k n [] h = ground arith
any-keys-insert j k n ((i, m) ∷ d) h = elim (Bool-cases (text_eq k i)) [
  | inl same ↦ rw same refl
  | inr other ↦ rw other (let rest = any-keys-insert j k n d h in ground arith)
]

has_duplicate-insert :
    (k : Text) (n : ℕ) (d : Dict ℕ)
    → has_duplicate (keys d) ≡ false
    → has_duplicate (keys (insert k n d)) ≡ false
unfolding insert has_duplicate
has_duplicate-insert k n [] h = refl
has_duplicate-insert k n ((j, m) ∷ d) h = elim (Bool-cases (text_eq k j)) [
  | inl same ↦ rw same (ground arith)
  | inr other ↦
      let unlike : text_eq j k ≡ false = elim (Bool-cases (text_eq j k)) [
        | inr no_match ↦ no_match
        | inl same ↦ absurd (
            let e = (text_eq_iff j k).0 same in
            let e' = text_eq_refl k in let f = rw e at other in cc)
      ] in
      let apart = any-keys-insert j k n d unlike in
      let rest = has_duplicate-insert k n d (ground arith) in rw other (ground arith)
]

-- Each protocol is written once, and the amounts are those of the positions.
pub held_by_protocol-sum :
    (positions : List Holding) (d : Dict ℕ)
    → sum_amounts (held_by_protocol positions d)
      ≡ sum_amounts d + sum_of (λ (h : Holding). h.amount) positions
unfolding held_by_protocol
held_by_protocol-sum [] d = omega arith
held_by_protocol-sum (h ∷ hs) d =
    let n = amount_at (protocol_of h) d + h.amount in
    let rest = held_by_protocol-sum hs (insert (protocol_of h) n d) in
    omega (arith, rest, sum_amounts-insert (protocol_of h) n d)

pub held_by_protocol-distinct :
    (positions : List Holding) (d : Dict ℕ)
    → has_duplicate (keys d) ≡ false
    → has_duplicate (keys (held_by_protocol positions d)) ≡ false
unfolding held_by_protocol
held_by_protocol-distinct [] d h = h
held_by_protocol-distinct (p ∷ ps) d h =
    let n = amount_at (protocol_of p) d + p.amount in
    held_by_protocol-distinct ps (insert (protocol_of p) n d)
      (has_duplicate-insert (protocol_of p) n d h)

held_by_protocol-keeps :
    (k : Text) (positions : List Holding) (d : Dict ℕ)
    → IsKey d k
    → IsKey (held_by_protocol positions d) k
unfolding held_by_protocol
held_by_protocol-keeps k [] d h = h
held_by_protocol-keeps k (p ∷ ps) d h =
    let n = amount_at (protocol_of p) d + p.amount in
    held_by_protocol-keeps k ps (insert (protocol_of p) n d) (IsKey-insert (protocol_of p) k n d h)

pub held_by_protocol-IsKey :
    (positions : List Holding) (d : Dict ℕ)
    → All (λ (h : Holding). IsKey (held_by_protocol positions d) (protocol_of h)) positions
unfolding held_by_protocol
held_by_protocol-IsKey [] d = tt
held_by_protocol-IsKey (p ∷ ps) d =
    let n = amount_at (protocol_of p) d + p.amount in
    let next = insert (protocol_of p) n d in
    (
      held_by_protocol-keeps (protocol_of p) ps next (n, lookup-insert_self (protocol_of p) n d),
      held_by_protocol-IsKey ps next,
    )
