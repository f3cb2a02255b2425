-- ===== src/Cache/Tests.antt =====
-- internal/cache/lru.go at a cache that is full.
use ice_core.Base.{ℕ, ◌+◌, ◌≡◌, refl, Bool, some, [], ◌∷◌, arith, nat_eq, ltb}
use ice_core.Base.Dict.{lookup, erase}
use ice_core.Base.Range.{IsOrder}
use ice_core.Cache.{Lru, find, get, put, invalidate, invalidate_if, size}
use ice_core.Cache.Shape.{IsValid}
use ice_core.Cache.Order.{view, after_read, after_write, get-view}
use ice_core.Cache.Writes.{put-view, invalidate-view}
use ice_core.Cache.Ranges.{keep, invalidate_if-view}

-- Two entries, and room for two.
abbrev full : Lru ℕ ℕ
full = record {
  capacity = 2;
  items = (2, 1) ∷ (1, 0) ∷ [];
  list = record { id = 1; key = 2; value = 20 } ∷ record { id = 0; key = 1; value = 10 } ∷ [];
  next_id = 2;
  hits = 0;
  misses = 0;
  evictions = 0;
}

full-IsValid : IsValid full
unfolding lookup find
full-IsValid = record {
  positive = omega arith;
  bounded = omega arith;
  tidy = (refl, refl, omega arith, (refl, refl, omega arith, tt));
  agree = λ k. refl;
  distinct = (refl, (refl, tt));
  counted = refl;
}

get-view_example :
    (c' : Lru ℕ ℕ) × (get full 1 ≡ some (lookup 1 (view full), c'))
    × IsValid c'
    × (view c' ≡ after_read 1 (view full))
    × (c'.capacity ≡ 2)
get-view_example = get-view full 1 full-IsValid

put-view_example :
    (c' : Lru ℕ ℕ) × (put full 3 30 ≡ some c')
    × IsValid c'
    × (view c' ≡ after_write 2 3 30 (view full))
    × (c'.capacity ≡ 2)
put-view_example = put-view full 3 30 full-IsValid

invalidate-view_example :
    IsValid (invalidate full 1)
    × (view (invalidate full 1) ≡ erase 1 (view full))
    × ((invalidate full 1).capacity ≡ 2)
invalidate-view_example = invalidate-view full 1 full-IsValid

abbrev above_one : ℕ → Bool
above_one k = ltb 1 k

full-IsOrder : IsOrder full.items ((1, 0) ∷ (2, 1) ∷ [])
unfolding lookup
full-IsOrder = record { once = (refl, (refl, tt)); same = λ k. ground arith }

invalidate_if-view_example :
    IsValid (invalidate_if above_one ((1, 0) ∷ (2, 1) ∷ []) full).0
    × (view (invalidate_if above_one ((1, 0) ∷ (2, 1) ∷ []) full).0 ≡ keep above_one (view full))
    × ((invalidate_if above_one ((1, 0) ∷ (2, 1) ∷ []) full).1
          + size (invalidate_if above_one ((1, 0) ∷ (2, 1) ∷ []) full).0
        ≡ size full)
    × ((invalidate_if above_one ((1, 0) ∷ (2, 1) ∷ []) full).0.capacity ≡ 2)
invalidate_if-view_example =
    invalidate_if-view above_one ((1, 0) ∷ (2, 1) ∷ []) full full-IsValid full-IsOrder
