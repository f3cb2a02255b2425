-- ===== src/Spec/Sound.antt =====
-- `ValidateSpecChange` finds no problem exactly when the rules hold.
use ice_core.Base.{
  ℕ, suc, ◌≡◌, ◌≢◌, ◌↔◌, refl, Bool, true, false, ◌&&◌, not, Option, none, some, List, [], ◌∷◌,
  arith, text_eq, text_beq_iff, All,
}
use ice_core.Base.Int.{ℤ, int_eq, int_beq_iff}
use ice_core.Spec.{
  PartitionField, param_required, check_field, check_fields, seen, lacks_positive, is_given,
}
use ice_core.Spec.Rules.{ParamFits, FieldFits, DistinctIds}

pub All-map {ℓ} :
    {A : Type ℓ} {P Q : A → Type 0} (f : (a : A) → P a → Q a) (xs : List A) → All P xs → All Q xs
All-map f [] h = tt
All-map f (x ∷ xs) h = (f x h.0, All-map f xs h.1)

All-zip {ℓ} :
    {A : Type ℓ} {P Q R : A → Type 0} (f : (a : A) → P a → Q a → R a) (xs : List A)
    → All P xs × All Q xs
    → All R xs
All-zip f [] h = tt
All-zip f (x ∷ xs) h = (f x h.0.0 h.1.0, All-zip f xs (h.0.1, h.1.1))

param_iff :
    (required : Bool) (p : Option ℤ)
    → ((required && lacks_positive p ≡ false) × (not required && is_given p ≡ false))
      ↔ ParamFits required p
param_iff true none = ground arith
param_iff true (some n) = ground arith
param_iff false none = ground arith
param_iff false (some n) = ground arith

-- The body of the loop passes a field that fits and whose id is new.
check_field_iff :
    (i : ℕ) (ids : List ℤ) (f : PartitionField)
    → (check_field i ids f ≡ none) ↔ (FieldFits f × (seen f.field_id ids ≡ false))
unfolding check_field
check_field_iff i ids f = ground (
  arith,
  text_beq_iff f.source_column [],
  param_iff (param_required f.transform) f.transform_param,
)

check_fields-cons :
    (i : ℕ) (ids : List ℤ) (f : PartitionField) (fs : List PartitionField)
    → (check_fields i ids (f ∷ fs) ≡ none)
      ↔ ((check_field i ids f ≡ none) × (check_fields (suc i) (f.field_id ∷ ids) fs ≡ none))
unfolding check_fields
check_fields-cons i ids f fs = ground arith

seen-cons : (n m : ℤ) (ids : List ℤ) → (seen n (m ∷ ids) ≡ false) ↔ ((m ≢ n) × (seen n ids ≡ false))
seen-cons n m ids = ground (arith, int_beq_iff m n)

-- The ids of the later fields are new once the first one's id has been seen.
unseen-cons :
    (m : ℤ) (ids : List ℤ) (fs : List PartitionField)
    → All (λ g. seen g.field_id (m ∷ ids) ≡ false) fs
      ↔ (All (λ g. m ≢ g.field_id) fs × All (λ g. seen g.field_id ids ≡ false) fs)
unseen-cons m ids fs = (
  λ h. (
    All-map (λ g p. ((seen-cons g.field_id m ids).0 p).0) fs h,
    All-map (λ g p. ((seen-cons g.field_id m ids).0 p).1) fs h,
  ),
  All-zip (λ g p q. (seen-cons g.field_id m ids).1 (p, q)) fs,
)

-- The loop over the proposed fields finds no problem exactly when each field has a column, a known
-- transform and the parameter that the transform wants, and no id stands twice or among the ids
-- seen before.
pub check_fields_iff :
    (i : ℕ) (ids : List ℤ) (fs : List PartitionField)
    → (check_fields i ids fs ≡ none)
      ↔ (All FieldFits fs × DistinctIds fs × All (λ f. seen f.field_id ids ≡ false) fs)
unfolding check_fields
check_fields_iff i ids [] = (λ _. (tt, tt, tt), λ _. refl)
check_fields_iff i ids (f ∷ fs) =
    let one = check_field_iff i ids f in
    let step = check_fields-cons i ids f fs in
    let ih = check_fields_iff (suc i) (f.field_id ∷ ids) fs in
    let new = unseen-cons f.field_id ids fs in
    (
      λ h.
          let (now, later) = step.0 h in
          let (fits, fresh) = one.0 now in
          let (all_fit, distinct, unseen) = ih.0 later in
          let (apart, rest) = new.0 unseen in ((fits, all_fit), (apart, distinct), (fresh, rest)),
      λ h.
          let ((fits, all_fit), (apart, distinct), (fresh, rest)) = h in
          step.1 (one.1 (fits, fresh), ih.1 (all_fit, distinct, new.1 (apart, rest))),
    )
