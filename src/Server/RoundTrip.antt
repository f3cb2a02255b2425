-- ===== src/Server/RoundTrip.antt =====
-- internal/server/metadata_server.go: a partition spec in the catalog and in the protocol.
mod Tests
use ice_core.Base.{
  ◌≡◌, ◌≢◌, refl, ap, true, ◌&&◌, ◌||◌, not, Option, none, some, List, [], ◌∷◌, map, ◌==◌, text_eq,
  if◌then◌else◌, ◌∙◌, Text, arith, All, ◌≤◌, ◌<◌, ◌^◌, ◌⊎◌,
}
use ice_core.Base.Int.{ℤ, pos, negsuc, neg_part, pos_part, to_int32, int_eq}
use ice_core.Spec.{
  PartitionSpec, PartitionField, valid_transform, transform_identity, transform_year,
  transform_month, transform_day, transform_hour, transform_bucket, transform_truncate,
}
use ice_core.Server.Convert.{
  TransformProto, identity, year, month, day, hour, bucket, truncate, unrecognized,
  PartitionFieldProto, PartitionSpecProto, proto_transform_to_string, string_transform_to_proto,
  field_of_proto, field_to_proto, proto_to_partition_spec, partition_spec_to_proto, param_to_proto,
}

-- The values of an `int32`.
abbrev pub Int32 : ℤ → Type 0
Int32 z = (neg_part z ≤ 2 ^ 31) × (pos_part z < 2 ^ 31)

to_int32_small : (z : ℤ) → Int32 z → to_int32 z ≡ z
unfolding to_int32
to_int32_small (pos n) h = ground (arith, h)
to_int32_small (negsuc n) h = ground (arith, h)

-- A parameter that is there is an `int32`, and not 0.
abbrev pub Fits : Option ℤ → Type 0
Fits none = Unit
Fits (some n) = Int32 n × (n ≢ pos 0)

-- A transform that the protocol names.
abbrev pub Named : TransformProto → Type 0
Named (unrecognized n) = ⊥
Named _ = Unit

-- A field whose numbers are `int32`, as the wire format makes them.
pub record IsMessage (f : PartitionFieldProto) : Type 0 where
  pub id : Int32 f.field_id
  pub param : Int32 f.transform_param
  pub named : Named f.transform

string_transform_to_proto-proto_transform_to_string :
    (t : TransformProto) → Named t → string_transform_to_proto (proto_transform_to_string t) ≡ t
unfolding string_transform_to_proto proto_transform_to_string
string_transform_to_proto-proto_transform_to_string identity h = refl
string_transform_to_proto-proto_transform_to_string year h = refl
string_transform_to_proto-proto_transform_to_string month h = refl
string_transform_to_proto-proto_transform_to_string day h = refl
string_transform_to_proto-proto_transform_to_string hour h = refl
string_transform_to_proto-proto_transform_to_string bucket h = refl
string_transform_to_proto-proto_transform_to_string truncate h = refl
string_transform_to_proto-proto_transform_to_string (unrecognized n) h = absurd h

proto_transform_to_string-string_transform_to_proto :
    (t : Text)
    → valid_transform t ≡ true
    → proto_transform_to_string (string_transform_to_proto t) ≡ t
unfolding string_transform_to_proto proto_transform_to_string valid_transform
proto_transform_to_string-string_transform_to_proto t h = ground (
  arith,
  h,
  text_eq.beq_iff t transform_identity,
  text_eq.beq_iff t transform_year,
  text_eq.beq_iff t transform_month,
  text_eq.beq_iff t transform_day,
  text_eq.beq_iff t transform_hour,
  text_eq.beq_iff t transform_bucket,
  text_eq.beq_iff t transform_truncate,
)

param_to_proto-unless_zero :
    (n : ℤ) → Int32 n → param_to_proto (if n == pos 0 then none else some n) ≡ n
param_to_proto-unless_zero n h = ground (arith, to_int32_small n h, int_eq.beq_iff n (pos 0))

unless_zero-param_to_proto :
    (o : Option ℤ)
    → Fits o
    → (if param_to_proto o == pos 0 then none else some (param_to_proto o)) ≡ o
unless_zero-param_to_proto none h = refl
unless_zero-param_to_proto (some n) h =
    ground (arith, to_int32_small n h.0, int_eq.beq_iff n (pos 0), h.1)

field_to_proto-field_of_proto :
    (f : PartitionFieldProto) → IsMessage f → field_to_proto (field_of_proto f) ≡ f
field_to_proto-field_of_proto f h = λ i. record {
  field_id = to_int32_small f.field_id h.id i;
  source_column = f.source_column;
  transform = string_transform_to_proto-proto_transform_to_string f.transform h.named i;
  transform_param = param_to_proto-unless_zero f.transform_param h.param i;
}

-- A field as the rules of a spec leave it, with numbers that fit an `int32`.
pub record IsStored (f : PartitionField) : Type 0 where
  pub id : Int32 f.field_id
  pub valid : valid_transform f.transform ≡ true
  pub param : Fits f.transform_param

field_of_proto-field_to_proto :
    (f : PartitionField) → IsStored f → field_of_proto (field_to_proto f) ≡ f
field_of_proto-field_to_proto f h = λ i. record {
  field_id = to_int32_small f.field_id h.id i;
  source_column = f.source_column;
  transform = proto_transform_to_string-string_transform_to_proto f.transform h.valid i;
  transform_param = unless_zero-param_to_proto f.transform_param h.param i;
}

map_back :
    {A B : Type 0} {P : A → Type 0} (f : A → B) (g : B → A) (xs : List A)
    → ((x : A) → P x → g (f x) ≡ x)
    → All P xs
    → map g (map f xs) ≡ xs
map_back f g [] back h = refl
map_back f g (x ∷ xs) back h =
    ap (◌∷◌ (g (f x))) (map_back f g xs back h.1) ∙ ap (λ y. y ∷ xs) (back x h.0)

-- A partition spec of the protocol whose numbers are of 32 bits and whose transforms are those that
-- the protocol names is got back from its translation into the catalog's form.
pub partition_spec_to_proto-proto_to_partition_spec :
    (p : PartitionSpecProto)
    → All IsMessage p
    → partition_spec_to_proto (proto_to_partition_spec (some p)) ≡ p
unfolding partition_spec_to_proto proto_to_partition_spec
partition_spec_to_proto-proto_to_partition_spec p h =
    map_back field_of_proto field_to_proto p field_to_proto-field_of_proto h

-- A spec of the catalog with valid transforms, with ids and parameters of 32 bits and no parameter 0,
-- is got back from its translation into the protocol.
pub proto_to_partition_spec-partition_spec_to_proto :
    (spec : PartitionSpec)
    → All IsStored spec.fields
    → proto_to_partition_spec (some (partition_spec_to_proto spec)) ≡ spec
unfolding partition_spec_to_proto proto_to_partition_spec
proto_to_partition_spec-partition_spec_to_proto spec h = λ i. record {
  fields = map_back field_to_proto field_of_proto spec.fields field_of_proto-field_to_proto h i;
}
