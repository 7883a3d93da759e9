-- ===== src/Partitioner/Order/Sorted.antt =====
-- What the two sorts of the partitioner return.
use walkai_nos.Base.{
  ◌≡◌, refl, not, ℤ, lt_ℤ→lt, lt_ℤ→ge, Bool, true, false, List, [], ◌∷◌, ◌+◌, ltb, nat_eq, lt_ℤ,
  eq_ℤ, nat_eq_iff, pos_part, neg_part, ◌≤ℤ◌, order_laws, if◌then◌else◌, All, arith, Bool-cases,
  inl, inr,
}
use Prim.Native.String.{compare}
use text.Mathlib.Text.{is_lt}
use walkai_nos.GoMap.Groups.{count}
use walkai_nos.Kube.{Pod}
use walkai_nos.Pods.{pod_priority_or_default}
use walkai_nos.Partitioner.Order.{
  insert_stable, sort_stable, before_by_priority, sort_pods_by_priority_and_age,
}

module _ {ℓ} {A : Type ℓ} (before : A → A → Bool) where
  count-insert_stable :
      (test : A → Bool) (x : A) (xs : List A)
      → count test (insert_stable before x xs) ≡ count test (x ∷ xs)
  unfolding insert_stable count
  count-insert_stable test x [] = refl
  count-insert_stable test x (y ∷ ys) = ground (arith, count-insert_stable test x ys)

  -- Sorting keeps how many entries pass any test.
  pub count-sort_stable :
      (test : A → Bool) (xs : List A) → count test (sort_stable before xs) ≡ count test xs
  unfolding sort_stable count
  count-sort_stable test [] = refl
  count-sort_stable test (x ∷ xs) =
      omega (arith, count-insert_stable test x (sort_stable before xs), count-sort_stable test xs)

  -- What holds of every entry holds of every entry of the sorted list.
  insert_stable-All {κ} :
      (P : A → Type κ) (x : A) (xs : List A) → P x → All P xs → All P (insert_stable before x xs)
  unfolding insert_stable
  insert_stable-All P x [] h k = (h, tt)
  insert_stable-All P x (y ∷ ys) h k = elim (Bool-cases (before y x)) [
    | inl b ↦ rw (b) (k.0, insert_stable-All P x ys h k.1)
    | inr b ↦ rw (b) (h, k)
  ]

  pub sort_stable-All {κ} :
      (P : A → Type κ) (xs : List A) → All P xs → All P (sort_stable before xs)
  unfolding sort_stable
  sort_stable-All P [] h = tt
  sort_stable-All P (x ∷ xs) h =
      insert_stable-All P x (sort_stable before xs) h.0 (sort_stable-All P xs h.1)

-- No pod has a higher priority than a pod in front of it.
abbrev pub Descending : List Pod → Type 0
Descending [] = Unit
Descending (p ∷ rest) =
    All (λ q. pod_priority_or_default q ≤ℤ pod_priority_or_default p) rest × Descending rest

-- An order that compares the priorities first.
first-ge : (a b : ℤ) (c : Bool) → (if not (eq_ℤ a b) then lt_ℤ b a else c) ≡ true → b ≤ℤ a
first-ge a b c h = elim (Bool-cases (eq_ℤ a b)) [
  | inl e ↦ omega (order_laws, (nat_eq_iff (pos_part a + neg_part b) (pos_part b + neg_part a)).0 e)
  | inr e ↦ omega (order_laws, lt_ℤ→lt b a (first h e))
]
  where
    first : (if not (eq_ℤ a b) then lt_ℤ b a else c) ≡ true → eq_ℤ a b ≡ false → lt_ℤ b a ≡ true
    first h e = ground arith

first-le : (a b : ℤ) (c : Bool) → (if not (eq_ℤ a b) then lt_ℤ b a else c) ≡ false → a ≤ℤ b
first-le a b c h = elim (Bool-cases (eq_ℤ a b)) [
  | inl e ↦ omega (order_laws, (nat_eq_iff (pos_part a + neg_part b) (pos_part b + neg_part a)).0 e)
  | inr e ↦ omega (order_laws, lt_ℤ→ge b a (first h e))
]
  where
    first : (if not (eq_ℤ a b) then lt_ℤ b a else c) ≡ false → eq_ℤ a b ≡ false → lt_ℤ b a ≡ false
    first h e = ground arith

before-ge :
    (p q : Pod)
    → before_by_priority p q ≡ true
    → pod_priority_or_default q ≤ℤ pod_priority_or_default p
unfolding before_by_priority
before-ge p q h =
    first-ge (pod_priority_or_default p) (pod_priority_or_default q)
      (if not (nat_eq p.creation_timestamp q.creation_timestamp)
        then ltb p.creation_timestamp q.creation_timestamp
        else is_lt (compare p.name q.name))
      h

not-before-le :
    (p q : Pod)
    → before_by_priority p q ≡ false
    → pod_priority_or_default p ≤ℤ pod_priority_or_default q
unfolding before_by_priority
not-before-le p q h =
    first-le (pod_priority_or_default p) (pod_priority_or_default q)
      (if not (nat_eq p.creation_timestamp q.creation_timestamp)
        then ltb p.creation_timestamp q.creation_timestamp
        else is_lt (compare p.name q.name))
      h

below :
    (p q : Pod) (l : List Pod)
    → pod_priority_or_default p ≤ℤ pod_priority_or_default q
    → All (λ r. pod_priority_or_default r ≤ℤ pod_priority_or_default p) l
    → All (λ r. pod_priority_or_default r ≤ℤ pod_priority_or_default q) l
below p q [] h k = tt
below p q (r ∷ l) h k = (omega (order_laws, h, k.0), below p q l h k.1)

insert_stable-Descending :
    (x : Pod) (xs : List Pod) → Descending xs → Descending (insert_stable before_by_priority x xs)
unfolding insert_stable
insert_stable-Descending x [] h = (tt, tt)
insert_stable-Descending x (y ∷ ys) h = elim (Bool-cases (before_by_priority y x)) [
  | inl b ↦ rw (b) (
    insert_stable-All before_by_priority
        (λ r. pod_priority_or_default r ≤ℤ pod_priority_or_default y) x ys (before-ge y x b) h.0,
    insert_stable-Descending x ys h.1,
  )
  | inr b ↦ rw (b) ((not-before-le y x b, below y x ys (not-before-le y x b) h.0), h)
]

sort_stable-Descending : (xs : List Pod) → Descending (sort_stable before_by_priority xs)
unfolding sort_stable
sort_stable-Descending [] = tt
sort_stable-Descending (x ∷ xs) =
    insert_stable-Descending x (sort_stable before_by_priority xs) (sort_stable-Descending xs)

-- The waiting pods are sorted: no pod has a higher priority than one in front of it, and the sorted
-- list has as many pods that pass any test as the given one.
pub sort_pods_outcomes :
    (pods : List Pod)
    → Descending (sort_pods_by_priority_and_age pods)
      × ((test : Pod → Bool) → count test (sort_pods_by_priority_and_age pods) ≡ count test pods)
unfolding sort_pods_by_priority_and_age
sort_pods_outcomes pods =
    (sort_stable-Descending pods, λ test. count-sort_stable before_by_priority test pods)
