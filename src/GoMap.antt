-- ===== src/GoMap.antt =====
-- Go's maps: association lists, read by the first entry of a key. An iteration `for k, v := range m`
-- is a recursion over the list; Go leaves the order open, so theorems range over every list.
pub mod Laws
pub mod Quantities
pub mod Groups
pub mod Keyed
pub mod Every
use walkai_nos.Base.{
  Bool, Option, none, some, ◌≡◌, List, [], ◌∷◌, map, ℤ, pos, ◌+ℤ◌, ◌-ℤ◌, if◌then◌else◌, Comparable,
  ◌==◌,
}

abbrev pub GoMap {ℓ κ} : Type ℓ → Type κ → Type (ℓ ⊔ κ)
GoMap K V = List (K × V)

module _ {ℓ κ} {K : Type ℓ} {V : Type κ} ⦃e : Comparable K⦄ where
  -- v, ok := m[k]
  unfoldable pub get? : K → GoMap K V → Option V
  get? k [] = none
  get? k ((j, v) ∷ m) = if j == k then some v else get? k m

  -- m[k] = v
  unfoldable pub put : K → V → GoMap K V → GoMap K V
  put k v [] = (k, v) ∷ []
  put k v ((j, w) ∷ m) = if j == k then (j, v) ∷ m else (j, w) ∷ put k v m

  -- delete(m, k)
  unfoldable pub delete : K → GoMap K V → GoMap K V
  delete k [] = []
  delete k ((j, w) ∷ m) = let rest = delete k m in if j == k then rest else (j, w) ∷ rest

  -- Each key has one entry.
  abbrev pub Distinct : GoMap K V → Type κ
  Distinct [] = Unit
  Distinct ((k, v) ∷ m) = (get? k m ≡ none) × Distinct m

module _ {ℓ} {K : Type ℓ} ⦃e : Comparable K⦄ where
  -- m[k] of a map to numbers, where a missing key reads as 0
  unfoldable pub amount : K → GoMap K ℤ → ℤ
  amount k m = elim (get? k m) [ none ↦ pos 0 | some q ↦ q ]

  -- m[k] += q
  unfoldable pub add_at : K → ℤ → GoMap K ℤ → GoMap K ℤ
  add_at k q m = put k (amount k m +ℤ q) m

  -- m[k] -= q
  unfoldable pub sub_at : K → ℤ → GoMap K ℤ → GoMap K ℤ
  sub_at k q m = put k (amount k m -ℤ q) m
