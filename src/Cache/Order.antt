-- ===== src/Cache/Order.antt =====
-- The cache against its abstract view: the entries from the most to the least recently used.
use ice_core.Base.{
  ℕ, zero, suc, ◌≡◌, refl, sym, ◌∙◌, ap, none, some, List, [], ◌∷◌, arith, Eq, leb, if◌then◌else◌,
  length, drop_last, Option-cases, inl, inr,
}
use ice_core.Base.Int.{ℤ, pos, negsuc}
use ice_core.Base.Dict.{Dict, lookup, erase, lookup-erase, erase_absent}
use ice_core.Cache.{Element, Lru, new_lru, find, remove, move_to_front, get, add_one}
use ice_core.Cache.Shape.{
  index, IsTidy, IsValid, find-index, index-remove, remove-IsTidy, find-remove_self, IsTidy-mono,
  length-remove,
}

module _ {K V : Type 0} where
  abbrev pub contents : List (Element K V) → Dict K V
  contents [] = []
  contents (x ∷ l) = (x.key, x.value) ∷ contents l

  -- The entries, the most recently used first.
  unfoldable pub view : Lru K V → Dict K V
  view c = contents c.list

  pub length-contents : (l : List (Element K V)) → length (contents l) ≡ length l
  length-contents [] = refl
  length-contents (x ∷ l) = ap suc (length-contents l)

module _ {K V : Type 0} ⦃e : Eq K⦄ where
  -- To use an entry is to move it to the front.
  abbrev pub touch : K → V → Dict K V → Dict K V
  touch k v d = (k, v) ∷ erase k d

  -- What a read of a key does to the view.
  abbrev pub after_read : K → Dict K V → Dict K V
  after_read k d = elim (lookup k d) [ none ↦ d | some v ↦ touch k v d ]

  -- What a write does: a full cache loses its last entry, if the key is new.
  abbrev pub after_write : ℕ → K → V → Dict K V → Dict K V
  after_write cap k v d = elim (lookup k d) [
    | none ↦ (k, v) ∷ (if leb cap (length d) then drop_last d else d)
    | some _ ↦ touch k v d
  ]

  pub lookup-contents_miss :
      (k : K) (l : List (Element K V)) → lookup k (index l) ≡ none → lookup k (contents l) ≡ none
  unfolding lookup
  lookup-contents_miss k [] h = refl
  lookup-contents_miss k (x ∷ l) h = ground (arith, lookup-contents_miss k l)

  lookup-contents_hit :
      (n i : ℕ) (k : K) (x : Element K V) (l : List (Element K V))
      → IsTidy n l
      → lookup k (index l) ≡ some i
      → find i l ≡ some x
      → lookup k (contents l) ≡ some x.value
  unfolding lookup find
  lookup-contents_hit n i k x [] t h f = cc
  lookup-contents_hit n i k x (y ∷ l) t h f =
      ground (arith, e.beq_iff y.key k, find-index n i k l t.3, lookup-contents_hit n i k x l t.3)

  contents-remove :
      (n i : ℕ) (k : K) (l : List (Element K V))
      → IsTidy n l
      → lookup k (index l) ≡ some i
      → contents (remove i l) ≡ erase k (contents l)
  unfolding lookup remove erase
  contents-remove n i k [] t h = cc
  contents-remove n i k (x ∷ l) t h = ground (
    arith,
    e.beq_iff x.key k,
    erase_absent k (contents l),
    lookup-contents_miss k l,
    find-index n i k l t.3,
    contents-remove n i k l t.3,
  )

  -- An element at the front, in place of the one with its key and address, keeps the list tidy.
  move-IsTidy :
      (n : ℕ) (x : Element K V) (l : List (Element K V))
      → IsTidy n l
      → lookup x.key (index l) ≡ some x.id
      → IsTidy n (x ∷ remove x.id l)
  move-IsTidy n x l t h = ground (
    arith,
    index-remove n x.id x.key l t h,
    lookup-erase x.key x.key (index l),
    e.beq_iff x.key x.key,
    find-remove_self n x.id l t,
    find-index n x.id x.key l t h,
    remove-IsTidy n x.id l t,
  )

  -- The map of the list after such a move.
  lookup-move :
      (n : ℕ) (x : Element K V) (l : List (Element K V)) (j : K)
      → IsTidy n l
      → lookup x.key (index l) ≡ some x.id
      → lookup j (index (x ∷ remove x.id l)) ≡ lookup j (index l)
  unfolding lookup
  lookup-move n x l j t h =
      ground
        (arith, index-remove n x.id x.key l t h, lookup-erase x.key j (index l), e.beq_iff x.key j)

  -- The same for a whole cache: its list with the element at the front.
  pub move-IsValid :
      (c c' : Lru K V) (x : Element K V)
      → IsValid c
      → lookup x.key c.items ≡ some x.id
      → c'.capacity ≡ c.capacity
      → c'.items ≡ c.items
      → c'.next_id ≡ c.next_id
      → c'.list ≡ x ∷ remove x.id c.list
      → IsValid c'
  move-IsValid c c' x v h p q r s =
      let shown : lookup x.key (index c.list) ≡ some x.id = sym (v.agree x.key) ∙ h in
      let (y, found, same_id, same_key, below) =
        find-index c.next_id x.id x.key c.list v.tidy shown in
      record {
        positive = ground arith;
        bounded = rw (s, p) (omega (arith, length-remove x.id y c.list found, v.bounded));
        tidy = rw s (
            IsTidy-mono c.next_id c'.next_id (x ∷ remove x.id c.list) (omega arith)
              (move-IsTidy c.next_id x c.list v.tidy shown));
        agree = λ j. rw (s, q) (v.agree j ∙ sym (lookup-move c.next_id x c.list j v.tidy shown));
        distinct = rw q v.distinct;
        counted = rw (s, q) (omega (arith, length-remove x.id y c.list found, v.counted));
      }

  -- A cache is made empty and valid, with room for one entry at least.
  pub new_lru-IsValid : (capacity : ℤ) → IsValid (new_lru {K = K} {V = V} capacity)
  unfolding new_lru
  new_lru-IsValid (pos zero) = record {
    positive = omega arith;
    bounded = omega arith;
    tidy = tt;
    agree = λ k. refl;
    distinct = tt;
    counted = refl;
  }
  new_lru-IsValid (pos (suc n)) = record {
    positive = omega arith;
    bounded = omega arith;
    tidy = tt;
    agree = λ k. refl;
    distinct = tt;
    counted = refl;
  }
  new_lru-IsValid (negsuc n) = record {
    positive = omega arith;
    bounded = omega arith;
    tidy = tt;
    agree = λ k. refl;
    distinct = tt;
    counted = refl;
  }

  -- What the invariant gives at a key that the map holds.
  pub held_at :
      (c : Lru K V) (k : K) (i : ℕ)
      → IsValid c
      → lookup k c.items ≡ some i
      → (x : Element K V) × (find i c.list ≡ some x)
        × (x.id ≡ i)
        × (x.key ≡ k)
        × (lookup k (index c.list) ≡ some i)
        × (lookup k (contents c.list) ≡ some x.value)
        × (contents (remove i c.list) ≡ erase k (contents c.list))
  held_at c k i v found =
      let shown : lookup k (index c.list) ≡ some i = sym (v.agree k) ∙ found in
      let (x, at, same_id, same_key, below) = find-index c.next_id i k c.list v.tidy shown in
      (
        x,
        at,
        same_id,
        same_key,
        shown,
        lookup-contents_hit c.next_id i k x c.list v.tidy shown at,
        contents-remove c.next_id i k c.list v.tidy shown,
      )

  -- What it gives at a key that the map lacks.
  pub lacking :
      (c : Lru K V) (k : K)
      → IsValid c
      → lookup k c.items ≡ none
      → (lookup k (index c.list) ≡ none) × (lookup k (contents c.list) ≡ none)
  lacking c k v miss =
      let gone : lookup k (index c.list) ≡ none = sym (v.agree k) ∙ miss in
      (gone, lookup-contents_miss k c.list gone)

  -- On a valid cache `Get` never meets a nil element, returns what the view holds under the key,
  -- moves a hit to the front of the view and changes nothing else in it, and keeps the cache valid.
  pub get-view :
      (c : Lru K V) (k : K)
      → IsValid c
      → (c' : Lru K V) × (get c k ≡ some (lookup k (view c), c'))
        × IsValid c'
        × (view c' ≡ after_read k (view c))
        × (c'.capacity ≡ c.capacity)
  unfolding get view move_to_front
  get-view c k v = elim (Option-cases (lookup k c.items)) [
    | inl miss ↦ (
      record c { misses = add_one c.misses },
      ground (arith, lacking c k v miss),
      record {
        positive = v.positive;
        bounded = v.bounded;
        tidy = v.tidy;
        agree = v.agree;
        distinct = v.distinct;
        counted = v.counted;
      },
      ground (arith, lacking c k v miss),
      refl,
    )
    | inr (i, found) ↦
        let (x, at, same_id, same_key, shown, held, rest) = held_at c k i v found in
        let c' : Lru K V = record c { list = x ∷ remove x.id c.list; hits = add_one c.hits } in
        (
          c',
          ground arith,
          move-IsValid c c' x v (rw (same_key, same_id) found) refl refl refl refl,
          ground arith,
          refl,
        )
  ]
