-- ===== src/Prelude/Dict.antt =====
-- A `Map` with text keys, as an association list in insertion order.
use positioncrew.Prelude.{
  ◌≡◌, ◌≢◌, true, Option, none, some, List, [], ◌∷◌, arith, Text, text_eq, text_eq_iff,
  if◌then◌else◌, All, inl, inr, Bool-cases,
}

abbrev pub Dict {ℓ} : Type ℓ → Type ℓ
Dict V = List (Text × V)

module _ {ℓ} {V : Type ℓ} where
  unfoldable pub lookup : Text → Dict V → Option V
  lookup k [] = none
  lookup k ((j, v) ∷ d) = if text_eq k j then some v else lookup k d

  unfoldable pub insert : Text → V → Dict V → Dict V
  insert k v [] = (k, v) ∷ []
  insert k v ((j, w) ∷ d) = if text_eq k j then (j, v) ∷ d else (j, w) ∷ insert k v d

  pub lookup-insert_self : (k : Text) (v : V) (d : Dict V) → lookup k (insert k v d) ≡ some v
  unfolding lookup insert
  lookup-insert_self k v [] = ground (arith, text_eq_iff k k)
  lookup-insert_self k v ((j, w) ∷ d) = ground (arith, text_eq_iff k k, lookup-insert_self k v d)

  pub lookup-insert_ne :
      (j k : Text) (v : V) (d : Dict V) → j ≢ k → lookup j (insert k v d) ≡ lookup j d
  unfolding lookup insert
  lookup-insert_ne j k v [] h = ground (arith, text_eq_iff j k)
  lookup-insert_ne j k v ((i, w) ∷ d) h =
      ground (arith, text_eq_iff j i, text_eq_iff k i, lookup-insert_ne j k v d h)

  -- Writing what is there already changes nothing.
  pub insert-lookup : (k : Text) (v : V) (d : Dict V) → lookup k d ≡ some v → insert k v d ≡ d
  unfolding lookup insert
  insert-lookup k v [] h = cc
  insert-lookup k v ((j, w) ∷ d) h = ground (arith, insert-lookup k v d)

  -- A property of every entry.
  pub All-insert {κ} :
      (P : Text → V → Type κ) (k : Text) (v : V) (d : Dict V)
      → ((j : Text) → text_eq k j ≡ true → P j v)
      → P k v
      → All (λ e. P e.0 e.1) d
      → All (λ e. P e.0 e.1) (insert k v d)
  unfolding insert
  All-insert P k v [] f p h = (p, tt)
  All-insert P k v ((j, w) ∷ d) f p h = elim (Bool-cases (text_eq k j)) [
    | inl same ↦ rw same (f j same, h.1)
    | inr other ↦ rw other (h.0, All-insert P k v d f p h.1)
  ]

  pub All-lookup {κ} :
      (P : Text → V → Type κ) (k : Text) {v : V} (d : Dict V)
      → ((j : Text) → text_eq k j ≡ true → P j v → P k v)
      → All (λ e. P e.0 e.1) d
      → lookup k d ≡ some v
      → P k v
  unfolding lookup
  All-lookup P k [] f h e = cc
  All-lookup P k {v} ((j, w) ∷ d) f h e = elim (Bool-cases (text_eq k j)) [
    | inl same ↦ let found : w ≡ v = ground arith in f j same (rw found at h.0)
    | inr other ↦ All-lookup P k d f h.1 (ground arith)
  ]
