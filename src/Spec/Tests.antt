-- ===== src/Spec/Tests.antt =====
-- internal/catalog/partition_spec.go at a table that is partitioned into buckets.
use ice_core.Base.{
  ℕ, suc, ◌≡◌, ◌↔◌, refl, none, some, [], ◌∷◌, arith, codes, ok, err, ◌==◌, text_eq, if◌then◌else◌,
}
use ice_core.Base.Int.{ℤ, pos}
use ice_core.Spec.{
  PartitionField, PartitionSpec, SpecJson, validate_spec_change, transform_bucket, valid_transform,
  param_required,
}
use ice_core.Spec.Rules.{IsWellFormed}
use ice_core.Spec.Evolution.{Allows}
use ice_core.Spec.Change.{validate_spec_change_iff}
use ice_core.Spec.Retune.{validate-retuned}

abbrev by_user : ℤ → PartitionField
by_user n = record {
  field_id = pos 1;
  source_column = codes "user";
  transform = transform_bucket;
  transform_param = some n;
}

abbrev buckets : ℤ → PartitionSpec
buckets n = record { fields = by_user n ∷ [] }

-- Two texts are specs, all others are not JSON.
abbrev two_specs : SpecJson
two_specs = record {
  unmarshal = λ t.
      if t == codes "A"
      then ok (buckets (pos 16))
      else if t == codes "B"
      then ok (buckets (pos 8))
      else err (codes "invalid character");
  marshal = λ s. [];
}

buckets-fit : (n : ℕ) → IsWellFormed (by_user (pos (suc n)) ∷ [])
unfolding valid_transform param_required
buckets-fit n = (λ h. cc, ((λ h. cc, refl, omega arith), tt), (tt, tt))

validate-retuned_example : validate_spec_change two_specs (codes "A") (codes "B") ≡ none
validate-retuned_example =
    validate-retuned two_specs (codes "A") (codes "B") (buckets (pos 16)) (pos 8) refl refl
      (buckets-fit 15) (omega arith)

validate_spec_change_example : (validate_spec_change two_specs (codes "A") (codes "B") ≡ none) ↔ (
    (proposed : PartitionSpec) × (two_specs.unmarshal (codes "B") ≡ ok proposed)
    × IsWellFormed proposed.fields
    × Allows two_specs (codes "A") proposed.fields)
validate_spec_change_example = validate_spec_change_iff two_specs (codes "A") (codes "B")
