-- ===== src/Cache.antt =====
-- internal/cache/lru.go: the bounded least-recently-used cache. The map `items` points into the
-- linked list `list`: an element is named by a number, given when it is pushed. `none` is the
-- nil dereference of an element that the list does not hold. The mutex makes each method one step.
pub mod Shape
pub mod Order
pub mod Writes
pub mod Ranges
mod Tests
use ice_core.Base.{
  ℕ, zero, suc, ◌+◌, ◌%◌, ◌^◌, Bool, false, Option, none, some, List, [], ◌∷◌, leb, Eq, ◌==◌,
  nat_eq, if◌then◌else◌, length,
}
use ice_core.Base.Int.{ℤ, pos, negsuc}
use ice_core.Base.Dict.{Dict, lookup, insert, erase}

-- One element of the linked list: its address, and the `entry` that it holds.
pub record Element (K V : Type 0) : Type 0 where
  pub id : ℕ
  pub key : K
  pub value : V

-- `next_id` is the address of the next element; `counters` are `atomic.Uint64`.
pub record Lru (K V : Type 0) : Type 0 where
  pub capacity : ℕ
  pub items : Dict K ℕ
  pub list : List (Element K V)
  pub next_id : ℕ
  pub hits : ℕ
  pub misses : ℕ
  pub evictions : ℕ

-- `Add(1)` on an `atomic.Uint64`.
abbrev pub add_one : ℕ → ℕ
add_one n = (n + 1) % 2 ^ 64

-- `if capacity <= 0 { capacity = 1 }`
abbrev pub at_least_one : ℤ → ℕ
at_least_one (pos zero) = 1
at_least_one (pos (suc n)) = suc n
at_least_one (negsuc n) = 1

unfoldable pub new_lru : {K V : Type 0} → ℤ → Lru K V
new_lru capacity = record {
  capacity = at_least_one capacity;
  items = [];
  list = [];
  next_id = 0;
  hits = 0;
  misses = 0;
  evictions = 0;
}

module _ {K V : Type 0} where
  -- The element at an address, and the list without it (`list.Remove`).
  unfoldable pub find : ℕ → List (Element K V) → Option (Element K V)
  find i [] = none
  find i (x ∷ l) = if x.id == i then some x else find i l

  unfoldable pub remove : ℕ → List (Element K V) → List (Element K V)
  remove i [] = []
  remove i (x ∷ l) = if x.id == i then l else x ∷ remove i l

  -- `list.MoveToFront`
  unfoldable pub move_to_front : Element K V → List (Element K V) → List (Element K V)
  move_to_front x l = x ∷ remove x.id l

  -- `list.Back`
  unfoldable pub back : List (Element K V) → Option (Element K V)
  back [] = none
  back (x ∷ []) = some x
  back (x ∷ y ∷ l) = back (y ∷ l)

module _ {K V : Type 0} ⦃e : Eq K⦄ where
  unfoldable pub hit : Lru K V → Option (Element K V) → Option (Option V × Lru K V)
  hit l none = none
  hit l (some x) =
      some (some x.value, record l { list = move_to_front x l.list; hits = add_one l.hits })

  -- `Get`: `none` inside the pair is the zero value with `false`.
  unfoldable pub get : Lru K V → K → Option (Option V × Lru K V)
  unfolding hit
  get l key = elim (lookup key l.items) [
    | none ↦ some (none, record l { misses = add_one l.misses })
    | some i ↦ hit l (find i l.list)
  ]

  -- `elem.Value = entry{key, value}; l.list.MoveToFront(elem)`
  unfoldable pub overwrite : Lru K V → K → V → Option (Element K V) → Option (Lru K V)
  overwrite l key value none = none
  overwrite l key value (some x) =
      some (record l { list = move_to_front (record x { key = key; value = value }) l.list })

  -- `last := l.list.Back(); if last != nil { … }`
  unfoldable pub evict_last : Lru K V → Option (Element K V) → Lru K V
  evict_last l none = l
  evict_last l (some last) = record l {
    items = erase last.key l.items;
    list = remove last.id l.list;
    evictions = add_one l.evictions;
  }

  -- `if l.list.Len() >= l.capacity`
  unfoldable pub make_room : Lru K V → Lru K V
  unfolding evict_last back
  make_room l = if leb l.capacity (length l.list) then evict_last l (back l.list) else l

  -- `elem := l.list.PushFront(entry{key, value}); l.items[key] = elem`
  unfoldable pub push_front : Lru K V → K → V → Lru K V
  push_front l key value = record l {
    list = record { id = l.next_id; key = key; value = value } ∷ l.list;
    items = insert key l.next_id l.items;
    next_id = suc l.next_id;
  }

  unfoldable pub put : Lru K V → K → V → Option (Lru K V)
  unfolding overwrite make_room push_front
  put l key value = elim (lookup key l.items) [
    | none ↦ some (push_front (make_room l) key value)
    | some i ↦ overwrite l key value (find i l.list)
  ]

  unfoldable pub invalidate : Lru K V → K → Lru K V
  invalidate l key = elim (lookup key l.items) [
    | none ↦ l
    | some i ↦ record l { items = erase key l.items; list = remove i l.list }
  ]

  -- The loop of `InvalidateIf`, over the entries of the map in the order in which Go ranges.
  unfoldable pub invalidate_range : (K → Bool) → Dict K ℕ → Lru K V → ℕ → Lru K V × ℕ
  invalidate_range pred [] l removed = (l, removed)
  invalidate_range pred ((key, i) ∷ range) l removed =
      invalidate_range pred range
        (if pred key then record l { items = erase key l.items; list = remove i l.list } else l)
        (if pred key then removed + 1 else removed)

  unfoldable pub invalidate_if : (K → Bool) → Dict K ℕ → Lru K V → Lru K V × ℕ
  unfolding invalidate_range
  invalidate_if pred range l = invalidate_range pred range l 0

module _ {K V : Type 0} where
  unfoldable pub clear : Lru K V → Lru K V
  clear l = record l { items = []; list = [] }

  -- `len(l.items)`
  unfoldable pub size : Lru K V → ℕ
  size l = length l.items

-- What Go's `float64` gives the cache.
pub record Float64 : Type 1 where
  pub Float : Type 0
  pub from_uint64 : ℕ → Float
  pub zero_float : Float
  pub div_float : Float → Float → Float

unfoldable pub hit_rate : {K V : Type 0} (f : Float64) → Lru K V → f.Float
hit_rate f l =
    let total = (l.hits + l.misses) % 2 ^ 64 in
    if total == 0 then f.zero_float else f.div_float (f.from_uint64 l.hits) (f.from_uint64 total)
