-- ===== src/Util.antt =====
-- pkg/util/util.go: the helpers on slices, maps and numbers.
pub mod Unordered
pub mod Batcher
mod BatcherExamples
use walkai_nos.Base.{
  Bool, true, false, ◌&&◌, Option, none, some, List, [], ◌∷◌, map, ℤ, pos, ◌-ℤ◌, lt_ℤ, nat_eq,
  length, Comparable, ◌==◌, if◌then◌else◌,
}
use walkai_nos.GoMap.{GoMap, get?, put}

unfoldable pub abs : ℤ → ℤ
abs n = if lt_ℤ n (pos 0) then pos 0 -ℤ n else n

module _ {ℓ} {K : Type ℓ} ⦃e : Comparable K⦄ where
  -- A Set holds each key once; Go leaves the order of its items open.
  unfoldable pub add_item : K → List K → List K
  add_item item [] = item ∷ []
  add_item item (x ∷ rest) = if x == item then x ∷ rest else x ∷ add_item item rest

  unfoldable pub add_keys {κ} : {V : Type κ} → GoMap K V → List K → List K
  unfolding add_item
  add_keys [] set = set
  add_keys ((k, v) ∷ m) set = add_keys m (add_item k set)

  -- GetKeys of two maps
  unfoldable pub get_keys {κ} : {V : Type κ} → GoMap K V → GoMap K V → List K
  unfolding add_keys
  get_keys a b = add_keys b (add_keys a [])

abbrev pub behind {ℓ} : {A : Type ℓ} → A → Option (List A) → Option (List A)
behind x none = none
behind x (some l) = some (x ∷ l)

module _ {ℓ} {A : Type ℓ} ⦃e : Comparable A⦄ where
  -- The inner loop of UnorderedEqual: visit the first element that is equal and not yet visited.
  unfoldable pub visit_first : A → List (Bool × A) → Option (List (Bool × A))
  visit_first element [] = none
  visit_first element ((visited, x) ∷ rest) =
      let later = behind (visited, x) (visit_first element rest) in
      if visited then later else if element == x then some ((true, x) ∷ rest) else later

  unfoldable pub visit_all : List A → List (Bool × A) → Option (List (Bool × A))
  unfolding visit_first
  visit_all [] second = some second
  visit_all (element ∷ rest) second = elim (visit_first element second) [
    | none ↦ none
    | some visited ↦ visit_all rest visited
  ]

  unfoldable pub unordered_equal : List A → List A → Bool
  unfolding visit_all
  unordered_equal first second =
      if nat_eq (length first) (length second)
      then elim (visit_all first (map (λ x. (false, x)) second)) [ none ↦ false | some _ ↦ true ]
      else false
