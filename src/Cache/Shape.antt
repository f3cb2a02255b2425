-- ===== src/Cache/Shape.antt =====
-- The invariant that ties the map of the cache to its list, and that the constructor and the
-- small steps keep it.
use ice_core.Base.{
  ℕ, suc, ◌≤◌, ◌<◌, ◌≡◌, refl, ap, none, some, List, [], ◌∷◌, arith, Eq, ◌==◌, Bool-cases, length,
  inl, inr,
}
use ice_core.Base.Dict.{Dict, lookup, erase, erase_absent, Distinct}
use ice_core.Cache.{Element, Lru, find, remove}

module _ {K V : Type 0} ⦃e : Eq K⦄ where
  -- The map that the list stands for: each key with the address of its element.
  abbrev pub index : List (Element K V) → Dict K ℕ
  index [] = []
  index (x ∷ l) = (x.key, x.id) ∷ index l

  -- No key and no address stands twice, and every address is below `n`.
  abbrev pub IsTidy : ℕ → List (Element K V) → Type 0
  IsTidy n [] = Unit
  IsTidy n (x ∷ l) =
      (lookup x.key (index l) ≡ none) × (find x.id l ≡ none) × (x.id < n) × IsTidy n l

  pub IsTidy-mono : (n m : ℕ) (l : List (Element K V)) → n ≤ m → IsTidy n l → IsTidy m l
  IsTidy-mono n m [] h t = tt
  IsTidy-mono n m (x ∷ l) h t = (t.0, t.1, omega arith, IsTidy-mono n m l h t.3)

  -- No element has an address that has not been given yet.
  pub find_fresh : (n i : ℕ) (l : List (Element K V)) → n ≤ i → IsTidy n l → find i l ≡ none
  unfolding find
  find_fresh n i [] h t = refl
  find_fresh n i (x ∷ l) h t = ground (arith, find_fresh n i l h t.3)

  -- What the map says of a key is what the list holds.
  pub find-index :
      (n i : ℕ) (k : K) (l : List (Element K V))
      → IsTidy n l
      → lookup k (index l) ≡ some i
      → (x : Element K V) × (find i l ≡ some x) × (x.id ≡ i) × (x.key ≡ k) × (i < n)
  unfolding lookup find
  find-index n i k [] t h = cc
  find-index n i k (x ∷ l) t h = elim (Bool-cases (x.key == k)) [
    | inl same ↦ (x, ground arith, ground arith, (e.beq_iff x.key k).0 same, ground arith)
    | inr other ↦
        let (y, found, same_id, same_key, below) = find-index n i k l t.3 (rw other at h) in
        (y, ground arith, same_id, same_key, below)
  ]

  pub find-remove :
      (i j : ℕ) (l : List (Element K V)) → find j l ≡ none → find j (remove i l) ≡ none
  unfolding find remove
  find-remove i j [] h = refl
  find-remove i j (x ∷ l) h = ground (arith, find-remove i j l)

  -- To drop the element of a key is to drop the key from the map that the list stands for.
  pub index-remove :
      (n i : ℕ) (k : K) (l : List (Element K V))
      → IsTidy n l
      → lookup k (index l) ≡ some i
      → index (remove i l) ≡ erase k (index l)
  unfolding lookup find remove erase
  index-remove n i k [] t h = cc
  index-remove n i k (x ∷ l) t h = ground (
    arith,
    e.beq_iff x.key k,
    erase_absent k (index l),
    find-index n i k l t.3,
    index-remove n i k l t.3,
  )

  pub lookup-remove-none :
      (i : ℕ) (k : K) (l : List (Element K V))
      → lookup k (index l) ≡ none
      → lookup k (index (remove i l)) ≡ none
  unfolding lookup remove
  lookup-remove-none i k [] h = refl
  lookup-remove-none i k (x ∷ l) h = ground (arith, lookup-remove-none i k l)

  pub remove-IsTidy : (n i : ℕ) (l : List (Element K V)) → IsTidy n l → IsTidy n (remove i l)
  unfolding remove
  remove-IsTidy n i [] t = tt
  remove-IsTidy n i (x ∷ l) t =
      ground
        (arith, remove-IsTidy n i l t.3, lookup-remove-none i x.key l t.0, find-remove i x.id l t.1)

  -- An address that was dropped is not in the list any more.
  pub find-remove_self :
      (n i : ℕ) (l : List (Element K V)) → IsTidy n l → find i (remove i l) ≡ none
  unfolding find remove
  find-remove_self n i [] t = refl
  find-remove_self n i (x ∷ l) t = ground (arith, find-remove_self n i l t.3)

  pub length-remove :
      (i : ℕ) (x : Element K V) (l : List (Element K V))
      → find i l ≡ some x
      → suc (length (remove i l)) ≡ length l
  unfolding find remove
  length-remove i x [] h = cc
  length-remove i x (y ∷ l) h = ground (arith, length-remove i x l)

  pub length-index : (l : List (Element K V)) → length (index l) ≡ length l
  length-index [] = refl
  length-index (x ∷ l) = ap suc (length-index l)

-- What every reachable cache satisfies: the map and the list hold the same keys, and the list
-- fits the capacity.
pub record IsValid {K V : Type 0} ⦃e : Eq K⦄ (c : Lru K V) : Type 0 where
  pub positive : 0 < c.capacity
  pub bounded : length c.list ≤ c.capacity
  pub tidy : IsTidy c.next_id c.list
  pub agree : (k : K) → lookup k c.items ≡ lookup k (index c.list)
  pub distinct : Distinct c.items
  pub counted : length c.items ≡ length c.list
