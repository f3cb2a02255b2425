-- ===== src/Spec/Change.antt =====
-- `ValidateSpecChange` as a whole: what it accepts, and what it does not look at.
use ice_core.Base.{
  ◌≡◌, ◌↔◌, refl, false, none, List, [], ◌∷◌, inl, inr, arith, text_eq, Text, ok, All, Result-cases,
}
use mathlib.Core.Path.{subst}
use ice_core.Base.Int.{int_eq}
use ice_core.Spec.{
  PartitionField, PartitionSpec, SpecJson, check_fields, check_current, check_proposed,
  validate_spec_change, seen,
}
use ice_core.Spec.Rules.{DistinctIds, IsWellFormed, IsEvolution}
use ice_core.Spec.Sound.{check_fields_iff}
use ice_core.Spec.Evolution.{Allows, check_evolution_iff}

none_seen : (fs : List PartitionField) → All (λ f. seen f.field_id [] ≡ false) fs
none_seen [] = tt
none_seen (f ∷ fs) = (refl, none_seen fs)

check_current_iff :
    (json : SpecJson) (current_json : Text) (proposed : PartitionSpec)
    → DistinctIds proposed.fields
    → (check_current json current_json proposed ≡ none) ↔ Allows json current_json proposed.fields
unfolding check_current
check_current_iff json [] proposed d = (λ _. inl refl, λ _. refl)
check_current_iff json (c ∷ cs) proposed d = elim (Result-cases (json.unmarshal (c ∷ cs))) [
  | inr (e, bad) ↦ (λ _. inr (inl (e, bad)), λ _. rw bad)
  | inl (current, good) ↦
      let same = check_evolution_iff current.fields proposed.fields d in
      (
        λ h. inr (inr (current, good, same.0 (rw good at h))),
        λ h. elim h [
          | inl e ↦ cc
          | inr (inl (e, bad)) ↦ cc
          | inr (inr (other, at, evolves)) ↦
              rw good
                (same.1 (subst (λ fs. IsEvolution fs proposed.fields) (one_spec at good) evolves))
        ],
      )
]
  where
    one_spec :
        {a b : PartitionSpec}
        → json.unmarshal (c ∷ cs) ≡ ok a
        → json.unmarshal (c ∷ cs) ≡ ok b
        → a.fields ≡ b.fields
    one_spec p q = cc

check_proposed_iff :
    (json : SpecJson) (current_json : Text) (proposed : PartitionSpec)
    → (check_proposed json current_json proposed ≡ none)
      ↔ (IsWellFormed proposed.fields × Allows json current_json proposed.fields)
unfolding check_proposed
check_proposed_iff json current_json proposed = go proposed.fields refl
  where
    go :
        (fs : List PartitionField)
        → proposed.fields ≡ fs
        → (check_proposed json current_json proposed ≡ none)
          ↔ (IsWellFormed proposed.fields × Allows json current_json proposed.fields)
    go [] e = rw e ((λ h. cc), (λ h. absurd (h.0.0 refl)))
    go (f ∷ fs) e =
        let fields = check_fields_iff 0 [] (f ∷ fs) in
        let current = check_current_iff json current_json proposed in
        (
          λ h.
              let (a, b) = split h in
              let (fits, distinct, _) = fields.0 a in
              let d : DistinctIds proposed.fields = rw e distinct in
              ((λ empty. cc, rw e fits, d), (current d).0 b),
          λ h.
              join (fields.1 (rw e at h.0.1, rw e at h.0.2, none_seen (f ∷ fs)))
                ((current h.0.2).1 h.1),
        )
      where
        split :
            check_proposed json current_json proposed ≡ none
            → (check_fields 0 [] (f ∷ fs) ≡ none)
              × (check_current json current_json proposed ≡ none)
        split h = ground arith

        join :
            check_fields 0 [] (f ∷ fs) ≡ none
            → check_current json current_json proposed ≡ none
            → check_proposed json current_json proposed ≡ none
        join a b = ground arith

-- `ValidateSpecChange` accepts a proposal exactly when its text parses to a spec with a field,
-- whose fields each have a column, a known transform and the parameter that the transform wants,
-- with distinct ids; and when the current text is empty, does not parse, or parses to a spec each
-- of whose fields the proposal has with the same id, column and transform, while every other
-- proposed id is above 0 and above all current ones.
pub validate_spec_change_iff :
    (json : SpecJson) (current_json proposed_json : Text)
    → (validate_spec_change json current_json proposed_json ≡ none) ↔ (
        (proposed : PartitionSpec) × (json.unmarshal proposed_json ≡ ok proposed)
        × IsWellFormed proposed.fields
        × Allows json current_json proposed.fields)
unfolding validate_spec_change
validate_spec_change_iff json current_json proposed_json =
    elim (Result-cases (json.unmarshal proposed_json)) [
      | inr (e, bad) ↦ (λ h. absurd (ground arith), λ h. absurd (ground arith))
      | inl (proposed, good) ↦
          let whole = check_proposed_iff json current_json proposed in
          (
            λ h.
                let (a, b) = whole.0 (rw (good, validate_spec_change) at h) in
                (proposed, good, a, b),
            λ h.
                rw (h.1, validate_spec_change)
                  ((check_proposed_iff json current_json h.0).1 (h.2, h.3)),
          )
    ]
