-- ===== src/GoMap/Keyed.antt =====
-- Maps whose lists stand under the key of their entries, as the grouping loops build them.
use walkai_nos.Base.{
  ◌≡◌, refl, sym, ◌∙◌, ap, subst, Bool, true, false, none, some, List, [], ◌∷◌, ◌++◌, ◌+◌, arith,
  Comparable, ◌==◌, if◌then◌else◌, All, All-append, Bool-cases, Option, length, inl, inr, ◌⊎◌,
}
use mathlib.Core.List.{append_assoc, append-nil}
use walkai_nos.GoMap.{GoMap, get?, put, Distinct}
use walkai_nos.GoMap.Laws.{get?-put}
use walkai_nos.GoMap.Groups.{
  filter, count, list_at, list_at-cons, list_at-none, list_at-put, list_at-group_by, group_into,
  group_by, flatten, IsKeyed,
}

pub filter-append {ℓ} :
    {A : Type ℓ} (keep : A → Bool) (xs ys : List A)
    → filter keep (xs ++ ys) ≡ filter keep xs ++ filter keep ys
unfolding filter
filter-append keep [] ys = refl
filter-append keep (x ∷ xs) ys = ground (arith, filter-append keep xs ys)

pub count-append {ℓ} :
    {A : Type ℓ} (test : A → Bool) (xs ys : List A)
    → count test (xs ++ ys) ≡ count test xs + count test ys
unfolding count
count-append test [] ys = omega arith
count-append test (x ∷ xs) ys = omega (arith, count-append test xs ys)

-- A test that implies another is not disturbed by filtering by that other.
pub count-filter {ℓ} :
    {A : Type ℓ} (test keep : A → Bool) (xs : List A)
    → ((x : A) → test x ≡ true → keep x ≡ true)
    → count test (filter keep xs) ≡ count test xs
unfolding count filter
count-filter test keep [] h = refl
count-filter test keep (x ∷ xs) h = ground (arith, h x, count-filter test keep xs h)

module _ {ℓ κ} {K : Type ℓ} {A : Type κ} ⦃e : Comparable K⦄ where
  filter_own :
      (key : A → K) (k : K) (l : List A) → All (λ r. key r ≡ k) l → filter (λ r. key r == k) l ≡ l
  unfolding filter
  filter_own key k [] h = refl
  filter_own key k (r ∷ rest) h =
      ground (arith, h.0, e.same_iff (key r) k, filter_own key k rest h.1)

  filter_other :
      (key : A → K) (k j : K) (l : List A)
      → All (λ r. key r ≡ j) l
      → (j == k) ≡ false
      → filter (λ r. key r == k) l ≡ []
  unfolding filter
  filter_other key k j [] h ne = refl
  filter_other key k j (r ∷ rest) h ne =
      ground (arith, h.0, e.same_iff (key r) k, e.same_iff j k, filter_other key k j rest h.1 ne)

  -- The entries of one key, taken from all lists together, are the list of that key.
  pub filter-flatten :
      (key : A → K) (k : K) (m : GoMap K (List A))
      → Distinct m
      → IsKeyed key m
      → filter (λ r. key r == k) (flatten m) ≡ list_at k m
  unfolding flatten list_at get? filter
  filter-flatten key k [] d h = refl
  filter-flatten key k ((j, l) ∷ m) d h =
      filter-append (λ r. key r == k) l (flatten m)
      ∙ joined (filter-flatten key k m d.1 h.1) (Bool-cases (j == k))
    where
      joined :
          filter (λ r. key r == k) (flatten m) ≡ list_at k m
          → ((j == k) ≡ true) ⊎ ((j == k) ≡ false)
          → filter (λ r. key r == k) l ++ filter (λ r. key r == k) (flatten m)
            ≡ list_at k ((j, l) ∷ m)
      joined below (inl hit) =
          let own : All (λ r. key r ≡ k) l =
            subst (λ i. All (λ r. key r ≡ i) l) ((e.same_iff j k).0 hit) h.0 in
          let absent : get? k m ≡ none =
            subst (λ i. get? i m ≡ none) ((e.same_iff j k).0 hit) d.0 in
          cc (
            filter_own key k l own,
            below,
            list_at-none k m absent,
            append-nil l,
            list_at-cons j k l m,
            ap (λ b. if b then l else list_at k m) hit,
          )
      joined below (inr miss) = cc (
        filter_other key k j l h.0 miss,
        below,
        list_at-cons j k l m,
        ap (λ b. if b then l else list_at k m) miss,
      )

  pub list_at-All :
      (key : A → K) (k : K) (m : GoMap K (List A))
      → IsKeyed key m
      → All (λ r. key r ≡ k) (list_at k m)
  unfolding list_at get?
  list_at-All key k [] h = tt
  list_at-All key k ((j, l) ∷ m) h = elim (Bool-cases (j == k)) [
    | inl hit ↦
        rw (list_at-cons j k l m, hit)
          (subst (λ i. All (λ r. key r ≡ i) l) ((e.same_iff j k).0 hit) h.0)
    | inr miss ↦ rw (list_at-cons j k l m, miss) (list_at-All key k m h.1)
  ]

  pub put-IsKeyed :
      (key : A → K) (k : K) (l : List A) (m : GoMap K (List A))
      → All (λ r. key r ≡ k) l
      → IsKeyed key m
      → IsKeyed key (put k l m)
  unfolding put
  put-IsKeyed key k l [] own h = (own, tt)
  put-IsKeyed key k l ((j, w) ∷ m) own h = elim (Bool-cases (j == k)) [
    | inl hit ↦ rw hit (subst (λ i. All (λ r. key r ≡ i) l) (sym ((e.same_iff j k).0 hit)) own, h.1)
    | inr miss ↦ rw miss (h.0, put-IsKeyed key k l m own h.1)
  ]

  group_into-IsKeyed :
      (key : A → K) (l : List A) (result : GoMap K (List A))
      → IsKeyed key result
      → IsKeyed key (group_into key result l)
  unfolding group_into
  group_into-IsKeyed key [] result h = h
  group_into-IsKeyed key (r ∷ rest) result h =
      group_into-IsKeyed key rest (put (key r) (list_at (key r) result ++ r ∷ []) result) (
        put-IsKeyed key (key r) (list_at (key r) result ++ r ∷ []) result
          (All-append (λ x. key x ≡ key r) (list_at (key r) result) (r ∷ [])
            (list_at-All key (key r) result h) (refl, tt))
          h)

  pub group_by-IsKeyed : (key : A → K) (l : List A) → IsKeyed key (group_by key l)
  unfolding group_by
  group_by-IsKeyed key l = group_into-IsKeyed key l [] tt

pub length-filter {ℓ} :
    {A : Type ℓ} (test : A → Bool) (xs : List A) → length (filter test xs) ≡ count test xs
unfolding filter count
length-filter test [] = refl
length-filter test (x ∷ xs) = ground (arith, length-filter test xs)

-- Filtering by a test that implies another is not disturbed by the other.
pub filter-filter {ℓ} :
    {A : Type ℓ} (test keep : A → Bool) (xs : List A)
    → ((x : A) → test x ≡ true → keep x ≡ true)
    → filter test (filter keep xs) ≡ filter test xs
unfolding filter
filter-filter test keep [] h = refl
filter-filter test keep (x ∷ xs) h = ground (arith, h x, filter-filter test keep xs h)

-- A group, if it has an entry.
abbrev pub as_group {ℓ} : {A : Type ℓ} → List A → Option (List A)
as_group [] = none
as_group (x ∷ xs) = some (x ∷ xs)

as_group_last {ℓ} :
    {A : Type ℓ} (xs : List A) (y : A) → as_group (xs ++ y ∷ []) ≡ some (xs ++ y ∷ [])
as_group_last [] y = refl
as_group_last (x ∷ xs) y = refl

module _ {ℓ κ} {K : Type ℓ} {A : Type κ} ⦃e : Comparable K⦄ where
  -- One step of the grouping loop keeps every group non-empty.
  put_group :
      (k j : K) (l : List A) (y : A) (m : GoMap K (List A))
      → get? j m ≡ as_group (list_at j m)
      → get? j (put k (l ++ y ∷ []) m) ≡ as_group (list_at j (put k (l ++ y ∷ []) m))
  put_group k j l y m h =
      get?-put k j (l ++ y ∷ []) m
      ∙ chosen (k == j)
      ∙ ap as_group (sym (list_at-put k j (l ++ y ∷ []) m))
    where
      chosen :
          (b : Bool)
          → (if b then some (l ++ y ∷ []) else get? j m)
            ≡ as_group (if b then l ++ y ∷ [] else list_at j m)
      chosen true = sym (as_group_last l y)
      chosen false = h

  group_step :
      (key : A → K) (k : K) (r : A) (rest : List A) (m : GoMap K (List A))
      → list_at k (put (key r) (list_at (key r) m ++ r ∷ []) m) ++ filter (λ x. key x == k) rest
        ≡ list_at k m ++ filter (λ x. key x == k) (r ∷ rest)
  unfolding filter
  group_step key k r rest m = ground (
    arith,
    list_at-put (key r) k (list_at (key r) m ++ r ∷ []) m,
    e.same_iff (key r) k,
    append_assoc (list_at k m) (r ∷ []) (filter (λ x. key x == k) rest),
  )

  get?-group_into :
      (key : A → K) (k : K) (l : List A) (result : GoMap K (List A))
      → get? k result ≡ as_group (list_at k result)
      → get? k (group_into key result l) ≡ as_group (list_at k result ++ filter (λ r. key r == k) l)
  unfolding group_into filter
  get?-group_into key k [] result h = rw (append-nil (list_at k result)) h
  get?-group_into key k (r ∷ rest) result h =
      get?-group_into key k rest (put (key r) (list_at (key r) result ++ r ∷ []) result)
        (put_group (key r) k (list_at (key r) result) r result h)
      ∙ ap as_group (group_step key k r rest result)

  pub get?-group_by :
      (key : A → K) (k : K) (l : List A)
      → get? k (group_by key l) ≡ as_group (filter (λ r. key r == k) l)
  unfolding group_by list_at get?
  get?-group_by key k l = get?-group_into key k l [] refl

  pub length-group_by :
      (key : A → K) (k : K) (l : List A)
      → length (list_at k (group_by key l)) ≡ count (λ r. key r == k) l
  length-group_by key k l = ap length (list_at-group_by key k l) ∙ length-filter (λ r. key r == k) l

  -- Grouping changes no count of a key.
  pub count-flatten :
      (key : A → K) (k : K) (m : GoMap K (List A))
      → Distinct m
      → IsKeyed key m
      → count (λ r. key r == k) (flatten m) ≡ length (list_at k m)
  count-flatten key k m d h =
      sym (length-filter (λ r. key r == k) (flatten m)) ∙ ap length (filter-flatten key k m d h)
