-- ===== src/GoMap/Laws.antt =====
-- Lookup after an update, in `if` form, and the keys of an updated map.
use walkai_nos.Base.{
  none, some, ◌≡◌, refl, [], ◌∷◌, if◌then◌else◌, Comparable, ◌==◌, arith, Bool-cases, inl, inr,
}
use walkai_nos.GoMap.{GoMap, get?, put, delete, Distinct}

module _ {ℓ κ} {K : Type ℓ} {V : Type κ} ⦃e : Comparable K⦄ where
  pub get?-put :
      (k j : K) (v : V) (m : GoMap K V) → get? j (put k v m) ≡ (if k == j then some v else get? j m)
  unfolding get? put
  get?-put k j v [] = refl
  get?-put k j v ((i, w) ∷ m) =
      ground (arith, e.same_iff k j, e.same_iff i k, e.same_iff i j, get?-put k j v m)

  pub get?-delete :
      (k j : K) (m : GoMap K V) → get? j (delete k m) ≡ (if k == j then none else get? j m)
  unfolding get? delete
  get?-delete k j [] = ground arith
  get?-delete k j ((i, w) ∷ m) =
      ground (arith, e.same_iff k j, e.same_iff i k, e.same_iff i j, get?-delete k j m)

  pub put-Distinct : (k : K) (v : V) (m : GoMap K V) → Distinct m → Distinct (put k v m)
  unfolding get? put
  put-Distinct k v [] d = (refl, tt)
  put-Distinct k v ((i, w) ∷ m) d = elim (Bool-cases (i == k)) [
    | inl hit ↦ rw hit d
    | inr miss ↦
        rw miss
          (ground (arith, get?-put k i v m, e.same_iff k i, e.same_iff i k), put-Distinct k v m d.1)
  ]

  pub delete-Distinct : (k : K) (m : GoMap K V) → Distinct m → Distinct (delete k m)
  unfolding get? delete
  delete-Distinct k [] d = tt
  delete-Distinct k ((i, w) ∷ m) d = elim (Bool-cases (i == k)) [
    | inl hit ↦ rw hit (delete-Distinct k m d.1)
    | inr miss ↦ rw miss (ground (arith, get?-delete k i m), delete-Distinct k m d.1)
  ]
