-- ===== src/Db/ColumnBounds/Pass.antt =====
-- One pass over the statistics of a column: the bounds of the summary leave out none of them.
use ice_core.Base.{
  ◌≡◌, ◌≢◌, refl, ap, ◌∙◌, true, false, Option, some, List, [], ◌∷◌, nat_eq, text_eq, text_beq_iff,
  nat_beq_iff, Text, All, arith,
}
use mathlib.Core.Path.{subst}
use ice_core.Base.Int.{int_eq}
use ice_core.Db.Rows.{ColumnStats}
use ice_core.Db.ColumnBounds.{text_ltb, Agg, add_counts, add_min, add_max, merge_stats, agg_of}

-- One pass: no summary until the first of them.
unfoldable pub merge_from : Option Agg → List ColumnStats → Option Agg
merge_from o [] = o
merge_from o (cs ∷ rest) = merge_from (some (merge_stats (agg_of o) cs)) rest

text_ltb_trans : (s t u : Text) → text_ltb s t ≡ true → text_ltb t u ≡ true → text_ltb s u ≡ true
unfolding text_ltb
text_ltb_trans [] [] u h k = absurd (ground (arith, h))
text_ltb_trans [] (b ∷ t) [] h k = absurd (ground (arith, k))
text_ltb_trans [] (b ∷ t) (c ∷ u) h k = refl
text_ltb_trans (a ∷ s) [] u h k = absurd (ground (arith, h))
text_ltb_trans (a ∷ s) (b ∷ t) [] h k = absurd (ground (arith, k))
text_ltb_trans (a ∷ s) (b ∷ t) (c ∷ u) h k =
    ground (arith, h, k, nat_beq_iff a b, nat_beq_iff b c, nat_beq_iff a c, text_ltb_trans s t u)

text_ltb_irrefl : (s : Text) → text_ltb s s ≡ false
unfolding text_ltb
text_ltb_irrefl [] = refl
text_ltb_irrefl (a ∷ s) = ground (arith, text_ltb_irrefl s)

-- In the order of Go's strings, byte by byte, the bounds that the statistics give are within those of the
-- summary.
pub record Covers (a : Agg) (cs : ColumnStats) : Type 0 where
  pub has : cs.min_value ≢ [] → a.has_min ≡ true
  pub low : cs.min_value ≢ [] → text_ltb cs.min_value a.min_value ≡ false
  pub high : cs.max_value ≢ [] → text_ltb a.max_value cs.max_value ≡ false

add_min-low :
    (a : Agg) (m x : Text)
    → a.has_min ≡ true
    → text_ltb x a.min_value ≡ false
    → ((add_min a m).has_min ≡ true) × (text_ltb x (add_min a m).min_value ≡ false)
unfolding add_min
add_min-low a m x h k = ground (arith, h, k, text_ltb_trans x m a.min_value)

add_min-own :
    (a : Agg) (m : Text)
    → m ≢ []
    → ((add_min a m).has_min ≡ true) × (text_ltb m (add_min a m).min_value ≡ false)
unfolding add_min
add_min-own a m h = ground (arith, h, text_beq_iff m [], text_ltb_irrefl m)

add_max-high :
    (a : Agg) (m x : Text)
    → text_ltb a.max_value x ≡ false
    → text_ltb (add_max a m).max_value x ≡ false
unfolding add_max
add_max-high a m x k = ground (arith, k, text_ltb_trans a.max_value m x)

add_max-own : (a : Agg) (m : Text) → m ≢ [] → text_ltb (add_max a m).max_value m ≡ false
unfolding add_max
add_max-own a m h = ground (arith, h, text_beq_iff m [], text_ltb_irrefl m)

-- The other bound is left.
pub add_max-keeps :
    (a : Agg) (m : Text)
    → ((add_max a m).has_min ≡ a.has_min) × ((add_max a m).min_value ≡ a.min_value)
unfolding add_max
add_max-keeps a m = ground arith

pub add_min-keeps : (a : Agg) (m : Text) → (add_min a m).max_value ≡ a.max_value
unfolding add_min
add_min-keeps a m = ground arith

merge_stats-Covers : (a : Agg) (cs old : ColumnStats) → Covers a old → Covers (merge_stats a cs) old
unfolding merge_stats
merge_stats-Covers a cs old h =
    let lower : Agg = add_min (add_counts a cs) cs.min_value in
    record {
      has = λ n.
          (add_max-keeps lower cs.max_value).0
          ∙ (add_min-low (add_counts a cs) cs.min_value old.min_value (h.has n) (h.low n)).0;
      low = λ n.
          ap (text_ltb old.min_value) (add_max-keeps lower cs.max_value).1
          ∙ (add_min-low (add_counts a cs) cs.min_value old.min_value (h.has n) (h.low n)).1;
      high = λ n. add_max-high lower cs.max_value old.max_value (
          ap (λ m. text_ltb m old.max_value) (add_min-keeps (add_counts a cs) cs.min_value)
          ∙ h.high n);
    }

merge_stats-Covers_own : (a : Agg) (cs : ColumnStats) → Covers (merge_stats a cs) cs
unfolding merge_stats
merge_stats-Covers_own a cs =
    let lower : Agg = add_min (add_counts a cs) cs.min_value in
    record {
      has = λ n.
          (add_max-keeps lower cs.max_value).0 ∙ (add_min-own (add_counts a cs) cs.min_value n).0;
      low = λ n.
          ap (text_ltb cs.min_value) (add_max-keeps lower cs.max_value).1
          ∙ (add_min-own (add_counts a cs) cs.min_value n).1;
      high = λ n. add_max-own lower cs.max_value n;
    }

merge_from-Covers :
    (l : List ColumnStats) (a b : Agg) (old : ColumnStats)
    → Covers a old
    → merge_from (some a) l ≡ some b
    → Covers b old
unfolding merge_from
merge_from-Covers [] a b old h e = subst (λ x. Covers x old) (ground (arith, e)) h
merge_from-Covers (cs ∷ l) a b old h e =
    merge_from-Covers l (merge_stats a cs) b old (merge_stats-Covers a cs old h) e

pub merge_from-All :
    (l : List ColumnStats) (o : Option Agg) (b : Agg) → merge_from o l ≡ some b → All (Covers b) l
unfolding merge_from
merge_from-All [] o b e = tt
merge_from-All (cs ∷ l) o b e = (
  merge_from-Covers l (merge_stats (agg_of o) cs) b cs (merge_stats-Covers_own (agg_of o) cs) e,
  merge_from-All l _ b e,
)
