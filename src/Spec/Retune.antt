-- ===== src/Spec/Retune.antt =====
-- What the check of a change does not compare: the parameter of a transform.
use ice_core.Base.{
  ◌≡◌, ◌≢◌, refl, Bool, true, false, Option, none, some, List, [], ◌∷◌, inl, inr, Text, ok, All,
}
use ice_core.Base.Int.{ℤ, pos, ◌<ℤ◌}
use ice_core.Spec.{PartitionField, PartitionSpec, SpecJson, param_required, validate_spec_change}
use ice_core.Spec.Rules.{Any, ParamFits, FieldFits, DistinctIds, IsWellFormed, IsKept, IsOldOrAbove}
use ice_core.Spec.Sound.{All-map}
use ice_core.Spec.Change.{validate_spec_change_iff}

-- The fields with every parameter that is given replaced by n, such as `bucket[16]` by `bucket[n]`.
abbrev pub with_param : ℤ → Option ℤ → Option ℤ
with_param n none = none
with_param n (some m) = some n

abbrev pub retuned : ℤ → List PartitionField → List PartitionField
retuned n [] = []
retuned n (f ∷ fs) = record f { transform_param = with_param n f.transform_param } ∷ retuned n fs

ParamFits-with_param :
    (n : ℤ) (required : Bool) (p : Option ℤ)
    → pos 0 <ℤ n
    → ParamFits required p
    → ParamFits required (with_param n p)
ParamFits-with_param n true none h k = k
ParamFits-with_param n true (some m) h k = h
ParamFits-with_param n false none h k = k
ParamFits-with_param n false (some m) h k = k

retuned-fits :
    (n : ℤ) (fs : List PartitionField)
    → pos 0 <ℤ n
    → All FieldFits fs
    → All FieldFits (retuned n fs)
retuned-fits n [] h k = tt
retuned-fits n (f ∷ fs) h k = (
  (k.0.0, k.0.1, ParamFits-with_param n (param_required f.transform) f.transform_param h k.0.2),
  retuned-fits n fs h k.1,
)

retuned-apart :
    (n m : ℤ) (fs : List PartitionField)
    → All (λ g. m ≢ g.field_id) fs
    → All (λ g. m ≢ g.field_id) (retuned n fs)
retuned-apart n m [] h = tt
retuned-apart n m (f ∷ fs) h = (h.0, retuned-apart n m fs h.1)

retuned-DistinctIds :
    (n : ℤ) (fs : List PartitionField) → DistinctIds fs → DistinctIds (retuned n fs)
retuned-DistinctIds n [] d = tt
retuned-DistinctIds n (f ∷ fs) d = (retuned-apart n f.field_id fs d.0, retuned-DistinctIds n fs d.1)

retuned-IsKept : (n : ℤ) (fs : List PartitionField) → All (IsKept (retuned n fs)) fs
retuned-IsKept n [] = tt
retuned-IsKept n (f ∷ fs) =
    (inl (refl, refl, refl), All-map (λ g k. inr k) fs (retuned-IsKept n fs))

retuned-old : (n : ℤ) (fs : List PartitionField) → All (IsOldOrAbove fs) (retuned n fs)
retuned-old n fs = All-map (λ g k. inl k) (retuned n fs) (known fs)
  where
    known :
        (gs : List PartitionField) → All (λ g. Any (λ f. f.field_id ≡ g.field_id) gs) (retuned n gs)
    known [] = tt
    known (g ∷ gs) = (inl refl, All-map (λ x k. inr k) (retuned n gs) (known gs))

-- A proposal that is the well-formed current spec with every given parameter replaced by another
-- positive number is accepted: the parameter of an existing field may change.
pub validate-retuned :
    (json : SpecJson) (current_json proposed_json : Text) (current : PartitionSpec) (n : ℤ)
    → json.unmarshal current_json ≡ ok current
    → json.unmarshal proposed_json ≡ ok (record { fields = retuned n current.fields })
    → IsWellFormed current.fields
    → pos 0 <ℤ n
    → validate_spec_change json current_json proposed_json ≡ none
validate-retuned json current_json proposed_json current n at to wf h =
    (validate_spec_change_iff json current_json proposed_json).1 (
      record { fields = retuned n current.fields },
      to,
      (
        nonempty current.fields wf.0,
        retuned-fits n current.fields h wf.1,
        retuned-DistinctIds n current.fields wf.2,
      ),
      inr (inr (current, at, (retuned-IsKept n current.fields, retuned-old n current.fields))),
    )
  where
    nonempty : (fs : List PartitionField) → fs ≢ [] → retuned n fs ≢ []
    nonempty [] k e = k refl
    nonempty (f ∷ fs) k e = cc
