-- ===== src/Prelude/Sort.antt =====
-- `Array.prototype.sort` with a comparison: a stable sort, here by insertion. `first x y` says that
-- the comparison of `x` and `y` is at most 0.
use mathlib.Core.List.Perm
use mathlib.Core.List.{Perm}
use positioncrew.Prelude.{
  Bool, true, false, List, [], ◌∷◌, ◌≡◌, All, inl, inr, Bool-cases, if◌then◌else◌,
}

module _ {ℓ} {A : Type ℓ} (first : A → A → Bool) where
  unfoldable pub insert : A → List A → List A
  insert x [] = x ∷ []
  insert x (y ∷ ys) = if first x y then x ∷ y ∷ ys else y ∷ insert x ys

  unfoldable pub sort : List A → List A
  sort [] = []
  sort (x ∷ xs) = insert x (sort xs)

  -- No entry is preceded by one that should come after it.
  abbrev pub IsSorted : List A → Type ℓ
  IsSorted [] = Unit
  IsSorted (x ∷ xs) = All (λ y. first x y ≡ true) xs × IsSorted xs

  insert-perm : (x : A) (ys : List A) → Perm (insert x ys) (x ∷ ys)
  unfolding insert
  insert-perm x [] = Perm.refl (x ∷ [])
  insert-perm x (y ∷ ys) = elim (Bool-cases (first x y)) [
    | inl before ↦ rw before (Perm.refl (x ∷ y ∷ ys))
    | inr after ↦ rw after (Perm.trans (Perm.cons y (insert-perm x ys)) (Perm.swap x y ys))
  ]

  pub sort-perm : (xs : List A) → Perm (sort xs) xs
  unfolding sort
  sort-perm [] = Perm.refl []
  sort-perm (x ∷ xs) = Perm.trans (insert-perm x (sort xs)) (Perm.cons x (sort-perm xs))

  pub All-insert {κ} : (P : A → Type κ) (x : A) (ys : List A) → P x → All P ys → All P (insert x ys)
  unfolding insert
  All-insert P x [] p h = (p, tt)
  All-insert P x (y ∷ ys) p h = elim (Bool-cases (first x y)) [
    | inl before ↦ rw before (p, h)
    | inr after ↦ rw after (h.0, All-insert P x ys p h.1)
  ]

  pub All-sort {κ} : (P : A → Type κ) (xs : List A) → All P xs → All P (sort xs)
  unfolding sort
  All-sort P [] h = tt
  All-sort P (x ∷ xs) h = All-insert P x (sort xs) h.0 (All-sort P xs h.1)

  All-uninsert {κ} : (P : A → Type κ) (x : A) (ys : List A) → All P (insert x ys) → P x × All P ys
  unfolding insert
  All-uninsert P x [] h = (h.0, tt)
  All-uninsert P x (y ∷ ys) h = elim (Bool-cases (first x y)) [
    | inl before ↦ rw before at h
    | inr after ↦
        let h' = rw after at h in
        let (head, rest) = All-uninsert P x ys h'.1 in (head, (h'.0, rest))
  ]

  -- What holds of the sorted entries holds of the entries.
  pub All-unsort {κ} : (P : A → Type κ) (xs : List A) → All P (sort xs) → All P xs
  unfolding sort
  All-unsort P [] h = tt
  All-unsort P (x ∷ xs) h =
      let (head, rest) = All-uninsert P x (sort xs) h in (head, All-unsort P xs rest)

  module _ (total : (x y : A) → first x y ≡ false → first y x ≡ true)
      (trans : (x y z : A) → first x y ≡ true → first y z ≡ true → first x z ≡ true) where
    All-first :
        (x y : A) (ys : List A)
        → first x y ≡ true
        → All (λ z. first y z ≡ true) ys
        → All (λ z. first x z ≡ true) ys
    All-first x y [] h k = tt
    All-first x y (z ∷ ys) h k = (trans x y z h k.0, All-first x y ys h k.1)

    insert-IsSorted : (x : A) (ys : List A) → IsSorted ys → IsSorted (insert x ys)
    unfolding insert
    insert-IsSorted x [] h = (tt, tt)
    insert-IsSorted x (y ∷ ys) h = elim (Bool-cases (first x y)) [
      | inl before ↦ rw before ((before, All-first x y ys before h.0), h)
      | inr after ↦
          rw after (
            All-insert (λ z. first y z ≡ true) x ys (total x y after) h.0,
            insert-IsSorted x ys h.1,
          )
    ]

    pub sort-IsSorted : (xs : List A) → IsSorted (sort xs)
    unfolding sort
    sort-IsSorted [] = tt
    sort-IsSorted (x ∷ xs) = insert-IsSorted x (sort xs) (sort-IsSorted xs)
