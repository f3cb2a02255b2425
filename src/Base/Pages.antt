-- ===== src/Base/Pages.antt =====
-- Parts of a list, one after the other.
use Prim.Native.Nat.{ℕ, zero, suc, ◌+◌, ◌-◌, ◌≤◌, ◌<◌}
use mathlib.Core.Path.{◌≡◌, refl, sym, ap, ◌∙◌}
use mathlib.Core.List.{List, [], ◌∷◌, ◌++◌, map}
use native.Mathlib.Omega.{arith}
use ice_core.Base.Lists.{length, take, drop}

module _ {A B : Type 0} (f : A → B) where
  pub map-snoc :
      (l : List A) (x : A) (ys : List B) → map f (l ++ x ∷ []) ++ ys ≡ map f l ++ f x ∷ ys
  map-snoc [] x ys = refl
  map-snoc (y ∷ l) x ys = ap (◌∷◌ (f y)) (map-snoc l x ys)

  pub map-append : (xs ys : List A) → map f (xs ++ ys) ≡ map f xs ++ map f ys
  map-append [] ys = refl
  map-append (x ∷ xs) ys = ap (◌∷◌ (f x)) (map-append xs ys)

module _ {A : Type 0} where
  drop-nil : (n : ℕ) → drop {A = A} n [] ≡ []
  drop-nil zero = refl
  drop-nil (suc n) = refl

  pub drop-drop : (m n : ℕ) (l : List A) → drop n (drop m l) ≡ drop (m + n) l
  drop-drop zero n l = ap (λ k. drop k l) (omega arith)
  drop-drop (suc m) n [] = drop-nil n ∙ sym (drop-nil (suc m + n))
  drop-drop (suc m) n (x ∷ l) =
      let same : suc (m + n) ≡ suc m + n = omega arith in
      drop-drop m n l ∙ ap (λ k. drop k (x ∷ l)) same

  pub length-drop : (n : ℕ) (l : List A) → length (drop n l) ≡ length l - n
  length-drop zero l = omega arith
  length-drop (suc n) [] = omega arith
  length-drop (suc n) (x ∷ l) = omega (arith, length-drop n l)

  pub take_all : (n : ℕ) (l : List A) → length l < n → take n l ≡ l
  take_all zero l h = absurd (omega (arith, h))
  take_all (suc n) [] h = refl
  take_all (suc n) (x ∷ l) h = ap (◌∷◌ x) (take_all n l (omega (arith, h)))

  pub length-take : (n : ℕ) (l : List A) → n ≤ length l → length (take n l) ≡ n
  length-take zero l h = refl
  length-take (suc n) [] h = absurd (omega (arith, h))
  length-take (suc n) (x ∷ l) h = ap suc (length-take n l (omega (arith, h)))
