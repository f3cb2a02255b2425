-- ===== src/Base/Range.antt =====
-- `for k, v := range m`: Go promises each entry once, in no particular order.
use mathlib.Core.Path.{◌≡◌}
use mathlib.Core.Option.{none, some}
use mathlib.Core.List.{[], ◌∷◌}
use native.Mathlib.Omega.{arith}
use ice_core.Base.Tests.{Eq}
use ice_core.Base.Dict.{Dict, lookup, erase, lookup-erase, Distinct}

module _ {K V : Type 0} ⦃e : Eq K⦄ where
  -- The keys of a range, each of which the map holds with the address that the range shows.
  abbrev pub IsRange : Dict K V → Dict K V → Type 0
  IsRange items [] = Unit
  IsRange items ((k, i) ∷ r) = (lookup k items ≡ some i) × (lookup k r ≡ none) × IsRange items r

  pub IsRange-erase :
      (items : Dict K V) (k : K) (r : Dict K V)
      → lookup k r ≡ none
      → IsRange items r
      → IsRange (erase k items) r
  unfolding lookup
  IsRange-erase items k [] h t = tt
  IsRange-erase items k ((j, i) ∷ r) h t =
      ground (arith, lookup-erase k j items, e.beq_iff k j, e.beq_iff j k, IsRange-erase items k r)

  -- The order in which Go may range over a map: its entries, each once.
  pub record IsOrder (items r : Dict K V) : Type 0 where
    pub once : Distinct r
    pub same : (k : K) → lookup k r ≡ lookup k items

  pub IsOrder-IsRange :
      (items r : Dict K V)
      → Distinct r
      → ((k : K) (i : V) → lookup k r ≡ some i → lookup k items ≡ some i)
      → IsRange items r
  unfolding lookup
  IsOrder-IsRange items [] d h = tt
  IsOrder-IsRange items ((k, i) ∷ r) d h = (
    h k i (ground (arith, e.beq_iff k k)),
    d.0,
    IsOrder-IsRange items r d.1 (λ j m p. h j m (ground (arith, e.beq_iff k j))),
  )
