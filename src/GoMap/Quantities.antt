-- ===== src/GoMap/Quantities.antt =====
-- Maps from keys to numbers: reading after an update.
use walkai_nos.Base.{
  ◌≡◌, refl, none, some, Option, [], ◌∷◌, ℤ, pos, ◌≤ℤ◌, ◌+ℤ◌, ◌-ℤ◌, if◌then◌else◌, Comparable, ◌==◌,
  arith, All,
}
use walkai_nos.GoMap.{GoMap, get?, put, delete, amount, add_at, sub_at, Distinct}
use walkai_nos.GoMap.Laws.{get?-put, get?-delete, put-Distinct}

abbrev pub or_zero : Option ℤ → ℤ
or_zero none = pos 0
or_zero (some q) = q

module _ {ℓ} {K : Type ℓ} ⦃e : Comparable K⦄ where
  pub amount-nil : (k : K) → amount k [] ≡ pos 0
  unfolding amount get?
  amount-nil k = refl

  pub amount-cons :
      (k j : K) (q : ℤ) (m : GoMap K ℤ) → amount j ((k, q) ∷ m) ≡ (if k == j then q else amount j m)
  unfolding amount get?
  amount-cons k j q m = ground arith

  pub amount-put :
      (k j : K) (q : ℤ) (m : GoMap K ℤ) → amount j (put k q m) ≡ (if k == j then q else amount j m)
  unfolding amount
  amount-put k j q m = ground (arith, get?-put k j q m)

  pub amount-delete :
      (k j : K) (m : GoMap K ℤ) → amount j (delete k m) ≡ (if k == j then pos 0 else amount j m)
  unfolding amount
  amount-delete k j m = ground (arith, get?-delete k j m)

  pub amount-add_at :
      (k j : K) (q : ℤ) (m : GoMap K ℤ)
      → amount j (add_at k q m) ≡ (if k == j then amount j m +ℤ q else amount j m)
  unfolding add_at
  amount-add_at k j q m = ground (arith, amount-put k j (amount k m +ℤ q) m, e.same_iff k j)

  pub amount-sub_at :
      (k j : K) (q : ℤ) (m : GoMap K ℤ)
      → amount j (sub_at k q m) ≡ (if k == j then amount j m -ℤ q else amount j m)
  unfolding sub_at
  amount-sub_at k j q m = ground (arith, amount-put k j (amount k m -ℤ q) m, e.same_iff k j)

  pub amount_by_cases : (k : K) (m : GoMap K ℤ) → amount k m ≡ or_zero (get? k m)
  unfolding amount
  amount_by_cases k m = ground arith

  pub amount-none : (k : K) (m : GoMap K ℤ) → get? k m ≡ none → amount k m ≡ pos 0
  unfolding amount
  amount-none k m h = rw (h, amount)

  pub amount-some : (k : K) (q : ℤ) (m : GoMap K ℤ) → get? k m ≡ some q → amount k m ≡ q
  unfolding amount
  amount-some k q m h = rw (h, amount)

  pub add_at-Distinct : (k : K) (q : ℤ) (m : GoMap K ℤ) → Distinct m → Distinct (add_at k q m)
  unfolding add_at
  add_at-Distinct k q m d = put-Distinct k (amount k m +ℤ q) m d

  pub sub_at-Distinct : (k : K) (q : ℤ) (m : GoMap K ℤ) → Distinct m → Distinct (sub_at k q m)
  unfolding sub_at
  sub_at-Distinct k q m d = put-Distinct k (amount k m -ℤ q) m d

  -- No entry is negative.
  abbrev pub Nonneg : GoMap K ℤ → Type ℓ
  Nonneg m = (k : K) → pos 0 ≤ℤ amount k m

  pub Nonneg-of_All : (m : GoMap K ℤ) → All (λ e. pos 0 ≤ℤ e.1) m → Nonneg m
  Nonneg-of_All [] h k = rw (amount-nil k) (omega arith)
  Nonneg-of_All ((j, q) ∷ m) h k = ground (arith, amount-cons j k q m, Nonneg-of_All m h.1 k)
