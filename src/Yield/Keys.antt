-- ===== src/Yield/Keys.antt =====
-- The keys of the maps in `candidatePlan`.
use positioncrew.Prelude.{
  ℕ, ◌≡◌, refl, ◌∙◌, some, List, [], ◌∷◌, arith, All, inl, inr, Bool-cases, Text, text_eq,
  text_eq_iff, text_eq_refl, All-imp,
}
use positioncrew.Prelude.Throws.{◌>>=◌}
use positioncrew.Prelude.Dict.{Dict, lookup, insert, lookup-insert_self, lookup-insert_ne}
use positioncrew.Prelude.Integers.{ℤ, pos, ◌-ℤ◌}
use positioncrew.Yield.{Holding, protocol_of}
use positioncrew.Yield.Plan.{Draw, final_holdings, signed_holdings, withdrawn_from}

-- Whether a key is written.
module _ {ℓ} {V : Type ℓ} where
  abbrev pub IsKey : Dict V → Text → Type ℓ
  IsKey d k = (v : V) × (lookup k d ≡ some v)

  pub IsKey-insert : (j k : Text) (v : V) (d : Dict V) → IsKey d k → IsKey (insert j v d) k
  IsKey-insert j k v d (u, e) = elim (Bool-cases (text_eq k j)) [
    | inl same ↦ let e' : k ≡ j = (text_eq_iff k j).0 same in (v, rw e' (lookup-insert_self j v d))
    | inr other ↦ (u, lookup-insert_ne k j v d (λ e'. cc (text_eq_refl k)) ∙ e)
  ]

pub IsKey-signed_holdings : (k : Text) (d : Dict ℕ) → IsKey d k → IsKey (signed_holdings d) k
unfolding lookup
IsKey-signed_holdings k [] (u, e) = absurd cc
IsKey-signed_holdings k ((i, w) ∷ d) (u, e) = elim (Bool-cases (text_eq k i)) [
  | inl same ↦ (pos w, rw same refl)
  | inr other ↦
      let found : lookup k d ≡ some u = ground arith in
      rw other (IsKey-signed_holdings k d (u, found))
]

-- A holding for each source's protocol: no withdrawal throws.
pub final_holdings-total :
    (d : Draw) (sources : List Holding) (final : Dict ℤ)
    → All (λ (h : Holding). IsKey final (protocol_of h)) sources
    → (f : Dict ℤ) × (final_holdings d sources final ≡ some f)
unfolding final_holdings
final_holdings-total d [] final h = (final, refl)
final_holdings-total d (source ∷ sources) final h =
    let (current, found) = h.0 in
    let next = insert (protocol_of source) (current -ℤ pos (withdrawn_from d source)) final in
    let (f, e) = final_holdings-total d sources next (
      All-imp (λ (s : Holding). IsKey final (protocol_of s))
        (λ (s : Holding). IsKey next (protocol_of s)) sources
        (λ s k.
          IsKey-insert (protocol_of source) (protocol_of s)
            (current -ℤ pos (withdrawn_from d source)) final k)
        h.1) in
    (f, rw (found, ◌>>=◌) e)
