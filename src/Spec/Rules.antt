-- ===== src/Spec/Rules.antt =====
-- What a partition spec must satisfy, and what a change of it must keep, stated without the code.
use ice_core.Base.{◌≡◌, ◌≢◌, Bool, true, false, Option, none, some, List, [], ◌∷◌, ◌⊎◌, All}
use ice_core.Base.Int.{ℤ, pos, ◌<ℤ◌}
use ice_core.Spec.{PartitionField, valid_transform, param_required}

-- Some element satisfies the predicate.
abbrev pub Any {ℓ} : {A : Type ℓ} → (A → Type 0) → List A → Type 0
Any P [] = ⊥
Any P (x ∷ xs) = P x ⊎ Any P xs

-- A transform that takes a parameter has a positive one, any other has none.
abbrev pub ParamFits : Bool → Option ℤ → Type 0
ParamFits true none = ⊥
ParamFits true (some n) = pos 0 <ℤ n
ParamFits false none = Unit
ParamFits false (some n) = ⊥

abbrev pub FieldFits : PartitionField → Type 0
FieldFits f =
    (f.source_column ≢ [])
    × (valid_transform f.transform ≡ true)
    × ParamFits (param_required f.transform) f.transform_param

abbrev pub DistinctIds : List PartitionField → Type 0
DistinctIds [] = Unit
DistinctIds (f ∷ fs) = All (λ g. f.field_id ≢ g.field_id) fs × DistinctIds fs

-- A spec has a field, every field fits, and no id stands twice.
abbrev pub IsWellFormed : List PartitionField → Type 0
IsWellFormed fs = (fs ≢ []) × All FieldFits fs × DistinctIds fs

-- The proposed fields have one with the current field's id, column and transform.
abbrev pub IsKept : List PartitionField → PartitionField → Type 0
IsKept proposed cf =
    Any
      (λ pf.
        (pf.field_id ≡ cf.field_id)
        × (pf.source_column ≡ cf.source_column)
        × (pf.transform ≡ cf.transform))
      proposed

-- A proposed field has the id of a current one, or an id above 0 and above all current ones.
abbrev pub IsOldOrAbove : List PartitionField → PartitionField → Type 0
IsOldOrAbove current pf =
    Any (λ cf. cf.field_id ≡ pf.field_id) current
    ⊎ ((pos 0 <ℤ pf.field_id) × All (λ cf. cf.field_id <ℤ pf.field_id) current)

abbrev pub IsEvolution : List PartitionField → List PartitionField → Type 0
IsEvolution current proposed = All (IsKept proposed) current × All (IsOldOrAbove current) proposed
