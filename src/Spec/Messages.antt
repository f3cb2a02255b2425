-- ===== src/Spec/Messages.antt =====
-- internal/catalog/partition_spec_store.go: the messages of `ValidateSpecChange`.
use ice_core.Base.{Option, none, some, List, [], ◌∷◌, ◌++◌, Text, codes}
use ice_core.Base.Decimal.{format_uint, format_int}
use ice_core.Spec.{
  Problem, invalid_json, no_fields, empty_source_column, unknown_transform, param_missing,
  param_forbidden, duplicate_id, source_changed, transform_changed, field_removed, id_too_small,
}

abbrev joined : List Text → Text
joined [] = []
joined (t ∷ ts) = t ++ joined ts

-- `quote` is `%q` of fmt.
unfoldable pub message_of : (Text → Text) → Problem → Text
message_of quote (invalid_json e) = codes "proposed partition spec is not valid JSON: " ++ e
message_of quote no_fields = codes "proposed partition spec must have at least one field"
message_of quote (empty_source_column i) =
    joined (codes "field at index " ∷ format_uint i ∷ codes " has empty source_column" ∷ [])
message_of quote (unknown_transform source transform) =
    joined (codes "field " ∷ quote source ∷ codes " has unknown transform " ∷ quote transform ∷ [])
message_of quote (param_missing source transform) = joined (
    codes "field "
    ∷ quote source
    ∷ codes " transform "
    ∷ quote transform
    ∷ codes " requires a positive transform_param"
    ∷ [])
message_of quote (param_forbidden source transform) = joined (
    codes "field "
    ∷ quote source
    ∷ codes " transform "
    ∷ quote transform
    ∷ codes " must not have transform_param"
    ∷ [])
message_of quote (duplicate_id n) =
    joined (codes "duplicate field_id " ∷ format_int n ∷ codes " in proposed spec" ∷ [])
message_of quote (source_changed n source new_source) = joined (
    codes "field_id "
    ∷ format_int n
    ∷ codes ": cannot change source_column from "
    ∷ quote source
    ∷ codes " to "
    ∷ quote new_source
    ∷ [])
message_of quote (transform_changed n transform new_transform) = joined (
    codes "field_id "
    ∷ format_int n
    ∷ codes ": cannot change transform from "
    ∷ quote transform
    ∷ codes " to "
    ∷ quote new_transform
    ∷ [])
message_of quote (field_removed n source) = joined (
    codes "field_id "
    ∷ format_int n
    ∷ codes " ("
    ∷ quote source
    ∷ codes ") was removed; partition fields cannot be removed"
    ∷ [])
message_of quote (id_too_small n max_current_id) = joined (
    codes "new field_id "
    ∷ format_int n
    ∷ codes " must be greater than all existing field_ids (max="
    ∷ format_int max_current_id
    ∷ codes ")"
    ∷ [])

-- The message is empty if there is no problem.
unfoldable pub message_or_empty : (Text → Text) → Option Problem → Text
unfolding message_of
message_or_empty quote none = []
message_or_empty quote (some p) = message_of quote p
