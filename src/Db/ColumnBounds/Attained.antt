-- ===== src/Db/ColumnBounds/Attained.antt =====
-- One pass over the statistics of a column: the bounds of the summary are among theirs.
use ice_core.Base.{
  ◌≡◌, sym, ◌∙◌, true, none, some, List, [], ◌∷◌, nat_eq, text_eq, Text, arith, inl, inr, ◌⊎◌,
}
use ice_core.Base.Int.{int_eq}
use ice_core.Db.Rows.{ColumnStats}
use ice_core.Db.ColumnBounds.{Agg, no_agg, add_counts, add_min, add_max, merge_stats}
use ice_core.Db.ColumnBounds.Pass.{merge_from, add_max-keeps, add_min-keeps}

-- Some of the statistics is so.
abbrev pub Some : (ColumnStats → Type 0) → List ColumnStats → Type 0
Some P [] = ⊥
Some P (cs ∷ l) = P cs ⊎ Some P l

add_min-source :
    (a : Agg) (m : Text)
    → (add_min a m).has_min ≡ true
    → ((a.has_min ≡ true) × (a.min_value ≡ (add_min a m).min_value)) ⊎ (m ≡ (add_min a m).min_value)
unfolding add_min
add_min-source a m h = ground (arith, h)

add_max-source :
    (a : Agg) (m : Text) → (a.max_value ≡ (add_max a m).max_value) ⊎ (m ≡ (add_max a m).max_value)
unfolding add_max
add_max-source a m = ground arith

merge_stats-min :
    (a : Agg) (cs : ColumnStats)
    → (merge_stats a cs).has_min ≡ true
    → ((a.has_min ≡ true) × (a.min_value ≡ (merge_stats a cs).min_value))
      ⊎ (cs.min_value ≡ (merge_stats a cs).min_value)
unfolding merge_stats
merge_stats-min a cs h =
    let lower : Agg = add_min (add_counts a cs) cs.min_value in
    let kept = add_max-keeps lower cs.max_value in
    elim (add_min-source (add_counts a cs) cs.min_value (sym kept.0 ∙ h)) [
      | inl old ↦ inl (old.0, old.1 ∙ sym kept.1)
      | inr new ↦ inr (new ∙ sym kept.1)
    ]

merge_stats-max :
    (a : Agg) (cs : ColumnStats)
    → (a.max_value ≡ (merge_stats a cs).max_value) ⊎ (cs.max_value ≡ (merge_stats a cs).max_value)
unfolding merge_stats
merge_stats-max a cs =
    let lower : Agg = add_min (add_counts a cs) cs.min_value in
    elim (add_max-source lower cs.max_value) [
      | inl old ↦ inl (sym (add_min-keeps (add_counts a cs) cs.min_value) ∙ old)
      | inr new ↦ inr new
    ]

merge_from-min :
    (l : List ColumnStats) (a b : Agg)
    → merge_from (some a) l ≡ some b
    → b.has_min ≡ true
    → ((a.has_min ≡ true) × (a.min_value ≡ b.min_value)) ⊎ Some (λ cs. cs.min_value ≡ b.min_value) l
unfolding merge_from
merge_from-min [] a b e h = ground (arith, e, h)
merge_from-min (cs ∷ l) a b e h = elim (merge_from-min l (merge_stats a cs) b e h) [
  | inr later ↦ inr (inr later)
  | inl (has, same) ↦ elim (merge_stats-min a cs has) [
    | inl (old, kept) ↦ inl (old, kept ∙ same)
    | inr new ↦ inr (inl (new ∙ same))
  ]
]

merge_from-max :
    (l : List ColumnStats) (a b : Agg)
    → merge_from (some a) l ≡ some b
    → (a.max_value ≡ b.max_value) ⊎ Some (λ cs. cs.max_value ≡ b.max_value) l
unfolding merge_from
merge_from-max [] a b e = ground (arith, e)
merge_from-max (cs ∷ l) a b e = elim (merge_from-max l (merge_stats a cs) b e) [
  | inr later ↦ inr (inr later)
  | inl same ↦ elim (merge_stats-max a cs) [
    | inl kept ↦ inl (kept ∙ same)
    | inr new ↦ inr (inl (new ∙ same))
  ]
]

-- The bounds of a summary are those of some of the statistics.
pub record IsAttained (a : Agg) (l : List ColumnStats) : Type 0 where
  pub least : a.has_min ≡ true → Some (λ cs. cs.min_value ≡ a.min_value) l
  pub greatest : (a.max_value ≡ []) ⊎ Some (λ cs. cs.max_value ≡ a.max_value) l

pub merge_from-IsAttained :
    (l : List ColumnStats) (b : Agg) → merge_from none l ≡ some b → IsAttained b l
unfolding merge_from
merge_from-IsAttained [] b e = cc
merge_from-IsAttained (cs ∷ l) b e = record {
  least = λ h. elim (merge_from-min (cs ∷ l) no_agg b e h) [
    | inl (never, same) ↦ absurd (cc never)
    | inr some_of ↦ some_of
  ];
  greatest = elim (merge_from-max (cs ∷ l) no_agg b e) [
    | inl same ↦ inl (sym same)
    | inr some_of ↦ inr some_of
  ];
}
