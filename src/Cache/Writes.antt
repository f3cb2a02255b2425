-- ===== src/Cache/Writes.antt =====
-- Writes, evictions and invalidations against the abstract view of the cache.
use ice_core.Base.{
  ℕ, suc, ◌<◌, ◌≡◌, refl, sym, ◌∙◌, none, some, List, [], ◌∷◌, arith, Eq, leb, if◌then◌else◌,
  length, drop_last, Option-cases, inl, inr, Bool-cases,
}
use ice_core.Base.Dict.{
  lookup, erase, lookup-insert, lookup-erase, erase_absent, erase-Distinct, insert-Distinct,
  length-erase, length-insert_new,
}
use ice_core.Cache.{
  Element, Lru, find, remove, back, move_to_front, evict_last, make_room, push_front, put,
  invalidate,
}
use ice_core.Cache.Shape.{
  index, IsTidy, IsValid, find_fresh, index-remove, remove-IsTidy, IsTidy-mono, length-remove,
}
use ice_core.Cache.Order.{
  contents, view, after_write, held_at, lacking, move-IsValid, length-contents,
}

module _ {K V : Type 0} ⦃e : Eq K⦄ where
  -- To drop an entry from the map and its element from the list keeps the cache valid.
  pub drop-IsValid :
      (c c' : Lru K V) (k : K) (i : ℕ)
      → IsValid c
      → lookup k c.items ≡ some i
      → c'.capacity ≡ c.capacity
      → c'.items ≡ erase k c.items
      → c'.next_id ≡ c.next_id
      → c'.list ≡ remove i c.list
      → IsValid c' × (suc (length c'.list) ≡ length c.list)
  drop-IsValid c c' k i v h p q r s =
      let (x, at, same_id, same_key, shown, held, rest) = held_at c k i v h in
      let shorter : suc (length c'.list) ≡ length c.list = rw s (length-remove i x c.list at) in
      (
        record {
          positive = ground arith;
          bounded = omega (arith, shorter, v.bounded);
          tidy = rw s (
              IsTidy-mono c.next_id c'.next_id (remove i c.list) (omega arith)
                (remove-IsTidy c.next_id i c.list v.tidy));
          agree = λ j. ground (
            arith,
            lookup-erase k j c.items,
            lookup-erase k j (index c.list),
            index-remove c.next_id i k c.list v.tidy shown,
            v.agree j,
          );
          distinct = rw q (erase-Distinct k c.items v.distinct);
          counted = ground (arith, length-erase k i c.items v.distinct h, v.counted);
        },
        shorter,
      )

  -- The last element of a tidy list is found under its address and its key, and the list without
  -- it shows the entries without the last.
  back-last :
      (n : ℕ) (l : List (Element K V))
      → IsTidy n l
      → 0 < length l
      → (x : Element K V) × (back l ≡ some x)
        × (find x.id l ≡ some x)
        × (lookup x.key (index l) ≡ some x.id)
        × (contents (remove x.id l) ≡ drop_last (contents l))
  unfolding back find lookup remove
  back-last n [] t h = absurd (omega arith)
  back-last n (x ∷ []) t h =
      (x, refl, ground arith, ground (arith, e.beq_iff x.key x.key), ground arith)
  back-last n (x ∷ y ∷ l) t h =
      let (z, last, at, shown, rest) = back-last n (y ∷ l) t.3 (omega arith) in
      (z, last, ground arith, ground (arith, e.beq_iff x.key z.key), ground arith)

  -- After the eviction there is room for one more entry.
  make_room-IsValid :
      (c : Lru K V) (k : K)
      → IsValid c
      → lookup k c.items ≡ none
      → IsValid (make_room c)
        × (length (make_room c).list < c.capacity)
        × (lookup k (make_room c).items ≡ none)
        × ((make_room c).capacity ≡ c.capacity)
        × (contents (make_room c).list ≡ (
            if leb c.capacity (length (contents c.list))
            then drop_last (contents c.list)
            else contents c.list))
  unfolding make_room
  make_room-IsValid c k v miss = elim (Bool-cases (leb c.capacity (length c.list))) [
    | inr room ↦ rw (length-contents c.list, room) (v, ground arith, miss, refl, refl)
    | inl full ↦
        let (x, last, at, shown, rest) =
          back-last c.next_id c.list v.tidy (ground (arith, v.positive)) in
        let c' : Lru K V = evict_last c (some x) in
        let found : lookup x.key c.items ≡ some x.id = v.agree x.key ∙ shown in
        let (valid, shorter) = drop-IsValid c c' x.key x.id v found refl refl refl refl in
        rw (length-contents c.list, full, last)
          (
            valid,
            omega (arith, shorter, v.bounded),
            ground (arith, lookup-erase x.key k c.items),
            refl,
            rest,
          )
  ]

  push_front-IsValid :
      (c : Lru K V) (k : K) (x : V)
      → IsValid c
      → length c.list < c.capacity
      → lookup k c.items ≡ none
      → IsValid (push_front c k x)
  unfolding push_front lookup
  push_front-IsValid c k x v room miss = record {
    positive = v.positive;
    bounded = omega arith;
    tidy = (
      (lacking c k v miss).0,
      find_fresh c.next_id c.next_id c.list (omega arith) v.tidy,
      omega arith,
      IsTidy-mono c.next_id (suc c.next_id) c.list (omega arith) v.tidy,
    );
    agree = λ j. ground (arith, lookup-insert k j c.next_id c.items, v.agree j);
    distinct = insert-Distinct k c.next_id c.items v.distinct;
    counted = omega (arith, length-insert_new k c.next_id c.items miss, v.counted);
  }

  -- On a valid cache `Put` never meets a nil element. It stores the value at the front of the view:
  -- a key that is held is moved there, a new key drops the last entry if the cache is full, and
  -- nothing else in the view changes. The cache stays valid, so it never exceeds its capacity.
  pub put-view :
      (c : Lru K V) (k : K) (x : V)
      → IsValid c
      → (c' : Lru K V) × (put c k x ≡ some c')
        × IsValid c'
        × (view c' ≡ after_write c.capacity k x (view c))
        × (c'.capacity ≡ c.capacity)
  unfolding put view move_to_front
  put-view c k x v = elim (Option-cases (lookup k c.items)) [
    | inl miss ↦
        let (valid, room, still, cap, shows) = make_room-IsValid c k v miss in
        (
          push_front (make_room c) k x,
          ground arith,
          push_front-IsValid (make_room c) k x valid (omega arith) still,
          ground (arith, lacking c k v miss),
          cap,
        )
    | inr (i, found) ↦
        let (y, at, same_id, same_key, shown, held, rest) = held_at c k i v found in
        let y' : Element K V = record y { key = k; value = x } in
        let c' : Lru K V = record c { list = y' ∷ remove y'.id c.list } in
        (
          c',
          ground arith,
          move-IsValid c c' y' v (rw same_id found) refl refl refl refl,
          ground arith,
          refl,
        )
  ]

  -- On a valid cache `Invalidate` takes the key, and nothing else, out of the view, and keeps the
  -- cache valid and its capacity.
  pub invalidate-view :
      (c : Lru K V) (k : K)
      → IsValid c
      → IsValid (invalidate c k)
        × (view (invalidate c k) ≡ erase k (view c))
        × ((invalidate c k).capacity ≡ c.capacity)
  unfolding invalidate view
  invalidate-view c k v = elim (Option-cases (lookup k c.items)) [
    | inl miss ↦
        rw (miss, invalidate)
          (v, sym (erase_absent k (contents c.list) (lacking c k v miss).1), refl)
    | inr (i, found) ↦
        let (y, at, same_id, same_key, shown, held, rest) = held_at c k i v found in
        rw (found, invalidate) ((drop-IsValid c _ k i v found refl refl refl refl).0, rest, refl)
  ]
