-- ===== src/Spec.antt =====
-- internal/catalog/partition_spec.go, and `ValidateSpecChange` of
-- internal/catalog/partition_spec_store.go. A problem stands for the message that the code
-- formats, as Messages does, with the values that it shows; no problem is the empty string. encoding/json is a
-- parameter.
pub mod Rules
pub mod Sound
pub mod Evolution
pub mod Change
pub mod Retune
pub mod Messages
mod Tests
use ice_core.Base.{
  ℕ, suc, ◌+◌, Bool, true, false, ◌&&◌, ◌||◌, not, Option, none, some, List, [], ◌∷◌, ◌==◌, text_eq,
  if◌then◌else◌, Text, codes, Result, ok, err,
}
use ice_core.Base.Int.{ℤ, pos, leb_ℤ, ltb_ℤ, int_eq}
use ice_core.Base.Dict.{Dict, lookup, insert}

abbrev pub PartitionTransform : Type 0
PartitionTransform = Text

abbrev pub transform_identity : PartitionTransform
transform_identity = codes "identity"

abbrev pub transform_year : PartitionTransform
transform_year = codes "year"

abbrev pub transform_month : PartitionTransform
transform_month = codes "month"

abbrev pub transform_day : PartitionTransform
transform_day = codes "day"

abbrev pub transform_hour : PartitionTransform
transform_hour = codes "hour"

abbrev pub transform_bucket : PartitionTransform
transform_bucket = codes "bucket"

abbrev pub transform_truncate : PartitionTransform
transform_truncate = codes "truncate"

-- `validTransforms[t]`
unfoldable pub valid_transform : PartitionTransform → Bool
valid_transform t =
    t == transform_identity
    || t == transform_year
    || t == transform_month
    || t == transform_day
    || t == transform_hour
    || t == transform_bucket
    || t == transform_truncate

unfoldable pub param_required : PartitionTransform → Bool
param_required t = t == transform_bucket || t == transform_truncate

pub record PartitionField : Type 0 where
  pub field_id : ℤ
  pub source_column : Text
  pub transform : PartitionTransform
  pub transform_param : Option ℤ

pub record PartitionSpec : Type 0 where
  pub fields : List PartitionField

-- encoding/json at the type `PartitionSpec`.
pub record SpecJson : Type 0 where
  pub unmarshal : Text → Result PartitionSpec
  pub marshal : PartitionSpec → Text

pub data Problem : Type 0 where
  invalid_json : Text → Problem
  no_fields : Problem
  empty_source_column : ℕ → Problem
  unknown_transform : Text → Text → Problem
  param_missing : Text → Text → Problem
  param_forbidden : Text → Text → Problem
  duplicate_id : ℤ → Problem
  source_changed : ℤ → Text → Text → Problem
  transform_changed : ℤ → Text → Text → Problem
  field_removed : ℤ → Text → Problem
  id_too_small : ℤ → ℤ → Problem

-- `f.TransformParam == nil || *f.TransformParam <= 0`
abbrev pub lacks_positive : Option ℤ → Bool
lacks_positive none = true
lacks_positive (some n) = leb_ℤ n (pos 0)

abbrev pub is_given : Option ℤ → Bool
is_given none = false
is_given (some n) = true

-- `seenIDs[id]`
abbrev pub seen : ℤ → List ℤ → Bool
seen n [] = false
seen n (m ∷ ms) = if m == n then true else seen n ms

-- The body of the first loop, at index i.
unfoldable pub check_field : ℕ → List ℤ → PartitionField → Option Problem
check_field i ids f =
    if f.source_column == []
    then some (empty_source_column i)
    else if not (valid_transform f.transform)
    then some (unknown_transform f.source_column f.transform)
    else if param_required f.transform && lacks_positive f.transform_param
    then some (param_missing f.source_column f.transform)
    else if not (param_required f.transform) && is_given f.transform_param
    then some (param_forbidden f.source_column f.transform)
    else if seen f.field_id ids
    then some (duplicate_id f.field_id)
    else none

-- `for i, f := range proposed.Fields`, with the ids seen so far; it returns at the first problem.
unfoldable pub check_fields : ℕ → List ℤ → List PartitionField → Option Problem
check_fields i ids [] = none
check_fields i ids (f ∷ fs) = elim (check_field i ids f) [
  | some p ↦ some p
  | none ↦ check_fields (suc i) (f.field_id ∷ ids) fs
]

-- The loop that finds the greatest id, from 0, and the fields by id.
unfoldable pub max_id : ℤ → List PartitionField → ℤ
max_id m [] = m
max_id m (f ∷ fs) = max_id (if ltb_ℤ m f.field_id then f.field_id else m) fs

unfoldable pub by_id : Dict ℤ PartitionField → List PartitionField → Dict ℤ PartitionField
by_id d [] = d
by_id d (f ∷ fs) = by_id (insert f.field_id f d) fs

-- The inner loop for one current field: the first proposed field with its id decides.
unfoldable pub check_kept : PartitionField → List PartitionField → Option Problem
check_kept cf [] = some (field_removed cf.field_id cf.source_column)
check_kept cf (pf ∷ rest) =
    if pf.field_id == cf.field_id
    then (if not (pf.source_column == cf.source_column)
        then some (source_changed cf.field_id cf.source_column pf.source_column)
        else if not (pf.transform == cf.transform)
        then some (transform_changed cf.field_id cf.transform pf.transform)
        else none)
    else check_kept cf rest

unfoldable pub check_all_kept : List PartitionField → List PartitionField → Option Problem
check_all_kept proposed [] = none
check_all_kept proposed (cf ∷ rest) = elim (check_kept cf proposed) [
  | some p ↦ some p
  | none ↦ check_all_kept proposed rest
]

-- A new field must have an id above the greatest.
unfoldable pub check_new : ℤ → Dict ℤ PartitionField → List PartitionField → Option Problem
check_new max_current_id current_by_id [] = none
check_new max_current_id current_by_id (pf ∷ rest) = elim (lookup pf.field_id current_by_id) [
  | some _ ↦ check_new max_current_id current_by_id rest
  | none ↦
      let later = check_new max_current_id current_by_id rest in
      if leb_ℤ pf.field_id max_current_id
      then some (id_too_small pf.field_id max_current_id)
      else later
]

unfoldable pub check_evolution : List PartitionField → List PartitionField → Option Problem
check_evolution current proposed = elim (check_all_kept proposed current) [
  | some p ↦ some p
  | none ↦ check_new (max_id (pos 0) current) (by_id [] current) proposed
]

-- What follows the loop over the proposed fields.
unfoldable pub check_current : SpecJson → Text → PartitionSpec → Option Problem
check_current json current_json proposed =
    if current_json == [] then none else elim (json.unmarshal current_json) [
      | err _ ↦ none
      | ok current ↦ check_evolution current.fields proposed.fields
    ]

unfoldable pub check_proposed : SpecJson → Text → PartitionSpec → Option Problem
check_proposed json current_json proposed = elim proposed.fields [
  | [] ↦ some no_fields
  | f ∷ fs ↦ elim (check_fields 0 [] (f ∷ fs)) [
    | some p ↦ some p
    | none ↦ check_current json current_json proposed
  ]
]

unfoldable pub validate_spec_change : SpecJson → Text → Text → Option Problem
validate_spec_change json current_json proposed_json = elim (json.unmarshal proposed_json) [
  | err e ↦ some (invalid_json e)
  | ok proposed ↦ check_proposed json current_json proposed
]
