-- ===== src/Resources/Keys.antt =====
-- GetKeys of pkg/util/util.go: the keys of two maps.
use walkai_nos.Base.{
  none, ◌≡◌, refl, List, [], ◌∷◌, Comparable, ◌==◌, Any, subst, ◌⊎◌, inl, inr, Bool-cases,
}
use walkai_nos.GoMap.{GoMap, get?}
use walkai_nos.Util.{add_item, add_keys, get_keys}

module _ {K : Type 0} ⦃e : Comparable K⦄ where
  abbrev pub Among : K → List K → Type 0
  Among k l = Any (λ x. x ≡ k) l

  add_item-Among : (k : K) (l : List K) → Among k (add_item k l)
  unfolding add_item
  add_item-Among k [] = inl refl
  add_item-Among k (x ∷ rest) = elim (Bool-cases (x == k)) [
    | inl hit ↦ rw hit (inl ((e.same_iff x k).0 hit))
    | inr miss ↦ rw miss (inr (add_item-Among k rest))
  ]

  Among-add_item : (k j : K) (l : List K) → Among j l → Among j (add_item k l)
  unfolding add_item
  Among-add_item k j [] h = absurd h
  Among-add_item k j (x ∷ rest) h = elim (Bool-cases (x == k)) [
    | inl hit ↦ rw hit h
    | inr miss ↦
        rw miss (elim h [ inl now ↦ inl now | inr later ↦ inr (Among-add_item k j rest later) ])
  ]

  Among-add_keys {κ} :
      {V : Type κ} (j : K) (m : GoMap K V) (l : List K) → Among j l → Among j (add_keys m l)
  unfolding add_keys
  Among-add_keys j [] l h = h
  Among-add_keys j ((k, v) ∷ m) l h = Among-add_keys j m (add_item k l) (Among-add_item k j l h)

  -- Every key of the map is added.
  add_keys-Among {κ} :
      {V : Type κ} (j : K) (m : GoMap K V) (l : List K) → (get? j m ≡ none) ⊎ Among j (add_keys m l)
  unfolding add_keys get?
  add_keys-Among j [] l = inl refl
  add_keys-Among j ((k, v) ∷ m) l = elim (Bool-cases (k == j)) [
    | inl hit ↦ rw hit (
        inr (
          Among-add_keys j m (add_item k l)
            (subst (λ x. Among x (add_item k l)) ((e.same_iff k j).0 hit) (add_item-Among k l))))
    | inr miss ↦ rw miss (add_keys-Among j m (add_item k l))
  ]

  -- A key of neither map, or one that is found.
  pub get_keys-Among {κ} :
      {V : Type κ} (j : K) (a b : GoMap K V)
      → ((get? j a ≡ none) × (get? j b ≡ none)) ⊎ Among j (get_keys a b)
  unfolding get_keys
  get_keys-Among j a b = elim (add_keys-Among j b (add_keys a [])) [
    | inr found ↦ inr found
    | inl none_b ↦ elim (add_keys-Among j a []) [
      | inl none_a ↦ inl (none_a, none_b)
      | inr found ↦ inr (Among-add_keys j b (add_keys a []) found)
    ]
  ]
