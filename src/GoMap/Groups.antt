-- ===== src/GoMap/Groups.antt =====
-- The grouping loops of the program: `for _, r := range l { result[key(r)] = append(result[key(r)], r) }`,
-- and the loop that appends the lists of such a map one after another.
use walkai_nos.Base.{
  ◌≡◌, Bool, none, some, List, [], ◌∷◌, ◌++◌, ℕ, ◌+◌, arith, Comparable, ◌==◌, if◌then◌else◌, All,
}
use mathlib.Core.List.{append_assoc, append-nil}
use walkai_nos.GoMap.{GoMap, get?, put, Distinct}
use walkai_nos.GoMap.Laws.{get?-put, put-Distinct}

-- util.Filter, and the loops that keep the entries of a list that pass a test.
unfoldable pub filter {ℓ} : {A : Type ℓ} → (A → Bool) → List A → List A
filter keep [] = []
filter keep (x ∷ xs) = if keep x then x ∷ filter keep xs else filter keep xs

-- How many entries pass a test.
unfoldable pub count {ℓ} : {A : Type ℓ} → (A → Bool) → List A → ℕ
count test [] = 0
count test (x ∷ xs) = (if test x then 1 else 0) + count test xs

module _ {ℓ κ} {K : Type ℓ} {A : Type κ} ⦃e : Comparable K⦄ where
  -- m[k] of a map to lists, where a missing key reads as nil
  unfoldable pub list_at : K → GoMap K (List A) → List A
  list_at k m = elim (get? k m) [ none ↦ [] | some l ↦ l ]

  unfoldable pub group_into : (A → K) → GoMap K (List A) → List A → GoMap K (List A)
  group_into key result [] = result
  group_into key result (r ∷ rest) =
      group_into key (put (key r) (list_at (key r) result ++ r ∷ []) result) rest

  unfoldable pub group_by : (A → K) → List A → GoMap K (List A)
  unfolding group_into
  group_by key l = group_into key [] l

  pub list_at-cons :
      (k j : K) (l : List A) (m : GoMap K (List A))
      → list_at j ((k, l) ∷ m) ≡ (if k == j then l else list_at j m)
  unfolding list_at get?
  list_at-cons k j l m = ground arith

  pub list_at-none : (k : K) (m : GoMap K (List A)) → get? k m ≡ none → list_at k m ≡ []
  unfolding list_at
  list_at-none k m h = rw (h, list_at)

  pub list_at-put :
      (k j : K) (l : List A) (m : GoMap K (List A))
      → list_at j (put k l m) ≡ (if k == j then l else list_at j m)
  unfolding list_at
  list_at-put k j l m = ground (arith, get?-put k j l m)

  list_at-group_into :
      (key : A → K) (k : K) (result : GoMap K (List A)) (l : List A)
      → list_at k (group_into key result l) ≡ list_at k result ++ filter (λ r. key r == k) l
  unfolding group_into filter
  list_at-group_into key k result [] = ground (arith, append-nil (list_at k result))
  list_at-group_into key k result (r ∷ rest) = ground (
    arith,
    list_at-group_into key k (put (key r) (list_at (key r) result ++ r ∷ []) result) rest,
    list_at-put (key r) k (list_at (key r) result ++ r ∷ []) result,
    e.same_iff (key r) k,
    append_assoc (list_at k result) (r ∷ []) (filter (λ r. key r == k) rest),
  )

  -- A group holds the entries of its key, in their order.
  pub list_at-group_by :
      (key : A → K) (k : K) (l : List A) → list_at k (group_by key l) ≡ filter (λ r. key r == k) l
  unfolding group_by list_at get?
  list_at-group_by key k l = list_at-group_into key k [] l

  group_into-Distinct :
      (key : A → K) (l : List A) (result : GoMap K (List A))
      → Distinct result
      → Distinct (group_into key result l)
  unfolding group_into
  group_into-Distinct key [] result d = d
  group_into-Distinct key (r ∷ rest) result d =
      group_into-Distinct key rest (put (key r) (list_at (key r) result ++ r ∷ []) result)
        (put-Distinct (key r) (list_at (key r) result ++ r ∷ []) result d)

  pub group_by-Distinct : (key : A → K) (l : List A) → Distinct (group_by key l)
  unfolding group_by
  group_by-Distinct key l = group_into-Distinct key l [] tt

  -- for _, r := range m { all = append(all, r...) }
  unfoldable pub flatten : GoMap K (List A) → List A
  flatten [] = []
  flatten ((k, l) ∷ m) = l ++ flatten m

  -- Each list stands under the key of its entries.
  abbrev pub IsKeyed : (A → K) → GoMap K (List A) → Type ℓ
  IsKeyed key m = All (λ e. All (λ r. key r ≡ e.0) e.1) m
