-- ===== src/Spec/Evolution.antt =====
-- The comparison with the current spec, and the theorem about `ValidateSpecChange`.
use ice_core.Base.{
  ◌≡◌, ◌≢◌, ◌↔◌, refl, sym, ◌∙◌, none, List, [], ◌∷◌, ◌⊎◌, inl, inr, arith, ◌==◌, text_eq,
  text_beq_iff, Text, ok, err, All, Bool-cases,
}
use ice_core.Base.Int.{ℤ, pos, ◌<ℤ◌, ltb_ℤ, int_eq, int_beq_iff}
use ice_core.Base.Dict.{Dict, lookup, insert, lookup-insert}
use ice_core.Spec.{
  PartitionField, PartitionSpec, SpecJson, max_id, by_id, check_kept, check_all_kept, check_new,
  check_evolution,
}
use ice_core.Spec.Rules.{Any, DistinctIds, IsKept, IsOldOrAbove, IsEvolution}
use ice_core.Spec.Sound.{All-map}

not-Any {ℓ} :
    {A : Type ℓ} {P Q : A → Type 0} (f : (a : A) → P a → Q a → ⊥) (xs : List A)
    → All P xs
    → Any Q xs
    → ⊥
not-Any f [] h k = k
not-Any f (x ∷ xs) h (inl q) = f x h.0 q
not-Any f (x ∷ xs) h (inr k) = not-Any f xs h.1 k

IsKept-cons :
    (cf pf : PartitionField) (fs : List PartitionField)
    → pf.field_id ≢ cf.field_id
    → IsKept (pf ∷ fs) cf
    → IsKept fs cf
IsKept-cons cf pf fs n (inl k) = absurd (n k.0)
IsKept-cons cf pf fs n (inr k) = k

kept-head :
    (cf pf : PartitionField) (fs : List PartitionField)
    → All (λ g. pf.field_id ≢ g.field_id) fs
    → pf.field_id ≡ cf.field_id
    → IsKept (pf ∷ fs) cf
    → (pf.source_column ≡ cf.source_column) × (pf.transform ≡ cf.transform)
kept-head cf pf fs d e (inl k) = (k.1, k.2)
kept-head cf pf fs d e (inr k) = absurd (not-Any (λ g n q. n (e ∙ sym q.0)) fs d k)

-- The inner loop accepts a current field exactly when the proposed fields, whose ids are
-- distinct, keep it.
check_kept_iff :
    (cf : PartitionField) (fs : List PartitionField)
    → DistinctIds fs
    → (check_kept cf fs ≡ none) ↔ IsKept fs cf
unfolding check_kept
check_kept_iff cf [] d = (λ h. cc, λ h. absurd h)
check_kept_iff cf (pf ∷ fs) d = elim (Bool-cases (pf.field_id == cf.field_id)) [
  | inr other ↦
      let ih = check_kept_iff cf fs d.1 in
      let apart : pf.field_id ≢ cf.field_id = λ e. cc ((int_beq_iff pf.field_id cf.field_id).1 e) in
      (λ h. inr (ih.0 (rw other at h)), λ k. rw other (ih.1 (IsKept-cons cf pf fs apart k)))
  | inl same ↦
      let e = (int_beq_iff pf.field_id cf.field_id).0 same in
      (
        λ h. inl (
          e,
          ground (arith, text_beq_iff pf.source_column cf.source_column),
          ground (arith, text_beq_iff pf.transform cf.transform),
        ),
        λ k.
            let (source, transform) = kept-head cf pf fs d.0 e k in
            ground (
              arith,
              text_beq_iff pf.source_column cf.source_column,
              text_beq_iff pf.transform cf.transform,
            ),
      )
]

check_all_kept_iff :
    (proposed current : List PartitionField)
    → DistinctIds proposed
    → (check_all_kept proposed current ≡ none) ↔ All (IsKept proposed) current
unfolding check_all_kept
check_all_kept_iff proposed [] d = (λ _. tt, λ _. refl)
check_all_kept_iff proposed (cf ∷ rest) d =
    ground (arith, check_kept_iff cf proposed d, check_all_kept_iff proposed rest d)

max_id-lt_iff :
    (m x : ℤ) (fs : List PartitionField)
    → (max_id m fs <ℤ x) ↔ ((m <ℤ x) × All (λ f. f.field_id <ℤ x) fs)
unfolding max_id
max_id-lt_iff m x [] = (λ h. (h, tt), λ h. h.0)
max_id-lt_iff m x (f ∷ fs) = elim (Bool-cases (ltb_ℤ m f.field_id)) [
  | inl above ↦
      let ih = max_id-lt_iff f.field_id x fs in
      rw above (λ h. let (a, b) = ih.0 h in (ground (arith, above), (a, b)), λ h. ih.1 h.1)
  | inr below ↦
      let ih = max_id-lt_iff m x fs in
      rw below (λ h. let (a, b) = ih.0 h in (a, (ground (arith, below), b)), λ h. ih.1 (h.0, h.1.1))
]

lookup-by_id :
    (n : ℤ) (d : Dict ℤ PartitionField) (fs : List PartitionField)
    → (lookup n (by_id d fs) ≡ none) ↔ ((lookup n d ≡ none) × All (λ f. f.field_id ≢ n) fs)
unfolding by_id
lookup-by_id n d [] = (λ h. (h, tt), λ h. h.0)
lookup-by_id n d (f ∷ fs) =
    let ih = lookup-by_id n (insert f.field_id f d) fs in
    let at = lookup-insert f.field_id n f d in
    (
      λ h.
          let (a, b) = ih.0 h in
          (ground (arith, at), (λ e. ground (arith, at, int_beq_iff f.field_id n), b)),
      λ h. ih.1 (ground (arith, at, int_beq_iff f.field_id n, h.1.0), h.1.1),
    )

-- Some field has the id, or none has.
Any-or_none :
    (n : ℤ) (fs : List PartitionField) → Any (λ f. f.field_id ≡ n) fs ⊎ All (λ f. f.field_id ≢ n) fs
Any-or_none n [] = inr tt
Any-or_none n (f ∷ fs) = elim (Bool-cases (f.field_id == n)) [
  | inl same ↦ inl (inl ((int_beq_iff f.field_id n).0 same))
  | inr other ↦ elim (Any-or_none n fs) [
    | inl some_later ↦ inl (inr some_later)
    | inr no_later ↦ inr (λ e. cc ((int_beq_iff f.field_id n).1 e), no_later)
  ]
]

abbrev IsAdmitted : ℤ → Dict ℤ PartitionField → PartitionField → Type 0
IsAdmitted m d pf = (lookup pf.field_id d ≢ none) ⊎ (m <ℤ pf.field_id)

check_new_iff :
    (m : ℤ) (d : Dict ℤ PartitionField) (fs : List PartitionField)
    → (check_new m d fs ≡ none) ↔ All (IsAdmitted m d) fs
unfolding check_new
check_new_iff m d [] = (λ _. tt, λ _. refl)
check_new_iff m d (pf ∷ fs) = ground (arith, check_new_iff m d fs)

IsAdmitted-iff :
    (current : List PartitionField) (pf : PartitionField)
    → IsAdmitted (max_id (pos 0) current) (by_id [] current) pf ↔ IsOldOrAbove current pf
IsAdmitted-iff current pf =
    let held = lookup-by_id pf.field_id [] current in
    let above = max_id-lt_iff (pos 0) pf.field_id current in
    (
      λ h. elim h [
        | inr big ↦ inr (above.0 big)
        | inl old ↦ elim (Any-or_none pf.field_id current) [
          | inl found ↦ inl found
          | inr missing ↦ absurd (old (held.1 (unfold lookup in refl, missing)))
        ]
      ],
      λ h. elim h [
        | inl found ↦ inl (λ e. not-Any (λ f n q. n q) current (held.0 e).1 found)
        | inr big ↦ inr (above.1 big)
      ],
    )

-- For proposed fields with distinct ids, the comparison with the current fields finds no problem
-- exactly when every current field is kept with its id, column and transform, and every other
-- proposed id is above 0 and above all current ones.
pub check_evolution_iff :
    (current proposed : List PartitionField)
    → DistinctIds proposed
    → (check_evolution current proposed ≡ none) ↔ IsEvolution current proposed
unfolding check_evolution
check_evolution_iff current proposed d =
    let kept = check_all_kept_iff proposed current d in
    let new = check_new_iff (max_id (pos 0) current) (by_id [] current) proposed in
    let both : (check_evolution current proposed ≡ none) ↔ (
        (check_all_kept proposed current ≡ none)
        × (check_new (max_id (pos 0) current) (by_id [] current) proposed ≡ none)) =
      ground arith in
    (
      λ h.
          let (a, b) = both.0 h in
          (kept.0 a, All-map (λ pf. (IsAdmitted-iff current pf).0) proposed (new.0 b)),
      λ h. both.1 (kept.1 h.0, new.1 (All-map (λ pf. (IsAdmitted-iff current pf).1) proposed h.1)),
    )

-- What the current spec's text allows: no text and a text that does not parse allow any change.
abbrev pub Allows : SpecJson → Text → List PartitionField → Type 0
Allows json current_json proposed =
    (current_json ≡ [])
    ⊎ ((e : Text) × (json.unmarshal current_json ≡ err e))
    ⊎ ((current : PartitionSpec) × (json.unmarshal current_json ≡ ok current)
        × IsEvolution current.fields proposed)
