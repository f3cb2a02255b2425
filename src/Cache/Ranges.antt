-- ===== src/Cache/Ranges.antt =====
-- `InvalidateIf`: whatever order Go ranges over the map in, exactly the entries whose key passes
-- the test go, and the count returned is how many went.
use ice_core.Base.{
  ℕ, ◌+◌, ◌≡◌, refl, sym, ap, ◌∙◌, Bool, true, none, some, [], ◌∷◌, arith, Eq, length, filter, not,
  Bool-cases, inl, inr,
}
use ice_core.Base.Dict.{Dict, lookup, erase, lookup-erase}
use ice_core.Base.Range.{IsRange, IsOrder, IsRange-erase, IsOrder-IsRange}
use ice_core.Cache.{Lru, remove, invalidate_range, invalidate_if, size}
use ice_core.Cache.Shape.{IsValid}
use ice_core.Cache.Order.{contents, view, held_at, lookup-contents_miss}
use ice_core.Cache.Writes.{drop-IsValid}

module _ {K V : Type 0} ⦃e : Eq K⦄ where
  -- The entries that are kept, of a view: those whose key fails the test.
  abbrev pub keep : (K → Bool) → Dict K V → Dict K V
  keep pred = filter (λ x. not (pred x.0))

  -- Erasing a key that passes the test changes nothing of what is kept.
  keep-erase :
      (pred : K → Bool) (k : K) (d : Dict K V) → pred k ≡ true → keep pred (erase k d) ≡ keep pred d
  unfolding erase
  keep-erase pred k [] h = refl
  keep-erase pred k ((j, v) ∷ d) h = ground (arith, e.beq_iff j k, keep-erase pred k d h)

  -- A view none of whose keys passes the test is kept whole.
  keep_all :
      (pred : K → Bool) (d : Dict K V)
      → ((k : K) → pred k ≡ true → lookup k d ≡ none)
      → keep pred d ≡ d
  unfolding lookup
  keep_all pred [] h = refl
  keep_all pred ((k, v) ∷ d) h =
      ground (arith, h k, e.beq_iff k k, keep_all pred d (λ j p. ground (arith, h j p)))

  pub record AfterRange (pred : K → Bool) (r : Dict K ℕ) (c c' : Lru K V) (removed n : ℕ)
      : Type 0 where
    pub valid : IsValid c'
    pub kept : keep pred (view c') ≡ keep pred (view c)
    pub gone :
        (k : K)
        → pred k ≡ true
        → lookup k c'.items ≡ (elim (lookup k r) [ none ↦ lookup k c.items | some _ ↦ none ])
    pub counted : n + length c'.list ≡ removed + length c.list
    pub capacity : c'.capacity ≡ c.capacity

  invalidate_range-AfterRange :
      (pred : K → Bool) (r : Dict K ℕ) (c : Lru K V) (removed : ℕ)
      → IsValid c
      → IsRange c.items r
      → AfterRange pred r c
          (invalidate_range pred r c removed).0
          removed
          (invalidate_range pred r c removed).1
  unfolding invalidate_range lookup view
  invalidate_range-AfterRange pred [] c removed v t = record {
    valid = v;
    kept = refl;
    gone = λ k p. refl;
    counted = refl;
    capacity = refl;
  }
  invalidate_range-AfterRange pred ((k, i) ∷ r) c removed v t = elim (Bool-cases (pred k)) [
    | inr no_match ↦
        let ih = invalidate_range-AfterRange pred r c removed v t.2 in
        rw (no_match, invalidate_range)
          (record {
            valid = ih.valid;
            kept = ih.kept;
            gone = λ j p. ground (arith, ih.gone j p, e.beq_iff k j);
            counted = ih.counted;
            capacity = ih.capacity;
          })
    | inl passes ↦
        let c1 : Lru K V = record c { items = erase k c.items; list = remove i c.list } in
        let (v1, shorter) = drop-IsValid c c1 k i v t.0 refl refl refl refl in
        let ih =
          invalidate_range-AfterRange pred r c1 (removed + 1) v1
            (IsRange-erase c.items k r t.1 t.2) in
        let (x, at, same_id, same_key, shown, held, rest) = held_at c k i v t.0 in
        rw (passes, invalidate_range)
          (record {
            valid = ih.valid;
            kept = ih.kept ∙ ap (keep pred) rest ∙ keep-erase pred k (view c) passes;
            gone = λ j p. ground (arith, ih.gone j p, e.beq_iff k j, lookup-erase k j c.items);
            counted = omega (arith, ih.counted, shorter);
            capacity = ih.capacity;
          })
  ]

  -- From a valid cache `InvalidateIf` leaves a valid cache that shows exactly the entries whose
  -- key fails the test, in their order, and returns the number of entries that went, whatever the
  -- order of the range.
  pub invalidate_if-view :
      (pred : K → Bool) (r : Dict K ℕ) (c : Lru K V)
      → IsValid c
      → IsOrder c.items r
      → IsValid (invalidate_if pred r c).0
        × (view (invalidate_if pred r c).0 ≡ keep pred (view c))
        × ((invalidate_if pred r c).1 + size (invalidate_if pred r c).0 ≡ size c)
        × ((invalidate_if pred r c).0.capacity ≡ c.capacity)
  unfolding invalidate_if size view
  invalidate_if-view pred r c v o =
      let t : IsRange c.items r = IsOrder-IsRange c.items r o.once (λ k i h. sym (o.same k) ∙ h) in
      let a = invalidate_range-AfterRange pred r c 0 v t in
      let c' : Lru K V = (invalidate_range pred r c 0).0 in
      (
        a.valid,
        sym (
              keep_all pred (contents c'.list) (λ k p.
                lookup-contents_miss k c'.list
                  (ground (arith, a.gone k p, o.same k, a.valid.agree k))))
            ∙ a.kept,
        omega (arith, a.counted, a.valid.counted, v.counted),
        a.capacity,
      )
