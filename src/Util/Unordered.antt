-- ===== src/Util/Unordered.antt =====
-- UnorderedEqual of pkg/util/util.go compares two slices as multisets.
use walkai_nos.Base.{
  ◌≡◌, refl, Bool, true, false, Option, none, some, List, [], ◌∷◌, map, ℕ, ◌+◌, ◌≤◌, nat_eq,
  nat_eq_iff, length, Comparable, ◌==◌, ==_refl, if◌then◌else◌, arith, ◌↔◌, Bool-cases, inl, inr,
  ◌⊎◌,
}
use walkai_nos.GoMap.Groups.{count}
use walkai_nos.Util.{behind, visit_first, visit_all, unordered_equal}

module _ {ℓ} {A : Type ℓ} ⦃e : Comparable A⦄ where
  -- Two lists hold the same elements, as often.
  abbrev pub SameElements : List A → List A → Type ℓ
  SameElements xs ys = (a : A) → count (λ x. x == a) xs ≡ count (λ x. x == a) ys

  -- How often an element stands in a list unvisited, and how many are unvisited.
  unvisited : A → List (Bool × A) → ℕ
  unvisited a [] = 0
  unvisited a ((visited, x) ∷ rest) =
      (if visited then 0 else if x == a then 1 else 0) + unvisited a rest

  all_unvisited : List (Bool × A) → ℕ
  all_unvisited [] = 0
  all_unvisited ((visited, x) ∷ rest) = (if visited then 0 else 1) + all_unvisited rest

  -- A visit takes one unvisited element away, and fails only where there is none.
  abbrev Visited : A → List (Bool × A) → Option (List (Bool × A)) → Type ℓ
  Visited a l none = Unit {ℓ} × (unvisited a l ≡ 0)
  Visited a l (some l') =
      ((b : A) → unvisited b l ≡ (if a == b then 1 else 0) + unvisited b l')
      × (all_unvisited l ≡ 1 + all_unvisited l')

  visit_first-Visited : (a : A) (l : List (Bool × A)) → Visited a l (visit_first a l)
  unfolding visit_first unvisited all_unvisited
  visit_first-Visited a [] = (tt, refl)
  visit_first-Visited a ((v, x) ∷ rest) =
      step v (visit_first a rest) (visit_first-Visited a rest) (Bool-cases (a == x))
    where
      step :
          (v : Bool) (o : Option (List (Bool × A)))
          → Visited a rest o
          → ((a == x) ≡ true) ⊎ ((a == x) ≡ false)
          → Visited a ((v, x) ∷ rest) (
              if v
              then behind (v, x) o
              else if a == x
              then some ((true, x) ∷ rest)
              else behind (v, x) o)
      step true none h c = (tt, ground (arith, h.1))
      step true (some l) h c = ((λ b. omega (arith, h.0 b)), omega (arith, h.1))
      step false o h (inl hit) =
          rw hit (
            (λ b. ground (arith, e.same_iff a b, e.same_iff x b, e.same_iff a x, hit)),
            omega arith,
          )
      step false none h (inr miss) =
          rw miss (tt, ground (arith, h.1, e.same_iff x a, e.same_iff a x, miss))
      step false (some l) h (inr miss) = rw miss ((λ b. ground (arith, h.0 b)), omega (arith, h.1))

  -- What is visited is what is looked for.
  visit_all-counts :
      (xs : List A) (l l' : List (Bool × A))
      → visit_all xs l ≡ some l'
      → ((a : A) → unvisited a l ≡ count (λ x. x == a) xs + unvisited a l')
        × (all_unvisited l ≡ length xs + all_unvisited l')
  unfolding visit_all count
  visit_all-counts [] l l' h = ((λ a. ground (arith, h)), ground (arith, h))
  visit_all-counts (x ∷ rest) l l' h =
      step (λ m. visit_all-counts rest m l') (visit_first x l) (visit_first-Visited x l) h
    where
      step :
          ((m : List (Bool × A))
            → visit_all rest m ≡ some l'
            → ((a : A) → unvisited a m ≡ count (λ y. y == a) rest + unvisited a l')
              × (all_unvisited m ≡ length rest + all_unvisited l'))
          → (o : Option (List (Bool × A))) → Visited x l o
          → elim o as (λ _. Option (List (Bool × A))) [
            | none ↦ none
            | some visited ↦ visit_all rest visited
          ]
            ≡ some l'
          → ((a : A) → unvisited a l ≡ count (λ y. y == a) (x ∷ rest) + unvisited a l')
            × (all_unvisited l ≡ length (x ∷ rest) + all_unvisited l')
      step below none v h = cc
      step below (some m) v h =
          let (each, all) = below m h in
          ((λ a. omega (arith, v.0 a, each a)), omega (arith, v.1, all))

  visit_all_succeeds :
      (xs : List A) (l : List (Bool × A))
      → ((a : A) → count (λ x. x == a) xs ≤ unvisited a l)
      → (l' : List (Bool × A)) × (visit_all xs l ≡ some l')
  unfolding visit_all count
  visit_all_succeeds [] l h = (l, refl)
  visit_all_succeeds (x ∷ rest) l h =
      step (visit_all_succeeds rest) (visit_first x l) (visit_first-Visited x l)
    where
      step :
          ((m : List (Bool × A))
            → ((a : A) → count (λ y. y == a) rest ≤ unvisited a m)
            → (l' : List (Bool × A)) × (visit_all rest m ≡ some l'))
          → (o : Option (List (Bool × A))) → Visited x l o
          → (l' : List (Bool × A)) × (elim o as (λ _. Option (List (Bool × A))) [
            | none ↦ none
            | some visited ↦ visit_all rest visited
          ]
              ≡ some l')
      step below none v = absurd (ground (arith, h x, v.1, ==_refl x))
      step below (some m) v = below m (λ a. omega (arith, h a, v.0 a))

  fresh : List A → List (Bool × A)
  fresh ys = map (λ x. (false, x)) ys

  unvisited-fresh : (a : A) (ys : List A) → unvisited a (fresh ys) ≡ count (λ x. x == a) ys
  unfolding fresh unvisited count
  unvisited-fresh a [] = refl
  unvisited-fresh a (y ∷ ys) = omega (arith, unvisited-fresh a ys)

  all_unvisited-fresh : (ys : List A) → all_unvisited (fresh ys) ≡ length ys
  unfolding fresh all_unvisited
  all_unvisited-fresh [] = refl
  all_unvisited-fresh (y ∷ ys) = omega (arith, all_unvisited-fresh ys)

  -- Where nothing of a kind is unvisited, nothing is.
  none_unvisited : (l : List (Bool × A)) → ((a : A) → unvisited a l ≡ 0) → all_unvisited l ≡ 0
  unfolding unvisited all_unvisited
  none_unvisited [] h = refl
  none_unvisited ((true, x) ∷ l) h = omega (arith, none_unvisited l (λ a. omega (arith, h a)))
  none_unvisited ((false, x) ∷ l) h = absurd (ground (arith, h x, ==_refl x))

  unvisited-le : (a : A) (l : List (Bool × A)) → unvisited a l ≤ all_unvisited l
  unfolding unvisited all_unvisited
  unvisited-le a [] = omega arith
  unvisited-le a ((true, x) ∷ l) = omega (arith, unvisited-le a l)
  unvisited-le a ((false, x) ∷ l) = ground (arith, unvisited-le a l)

  -- After a full match nothing is left unvisited, so that every value stands equally often.
  matched-SameElements :
      (xs ys : List A) (l : List (Bool × A))
      → visit_all xs (fresh ys) ≡ some l
      → length xs ≡ length ys
      → SameElements xs ys
  matched-SameElements xs ys l h same a =
      let (each, all) = visit_all-counts xs (fresh ys) l h in
      omega (arith, each a, all, unvisited-fresh a ys, all_unvisited-fresh ys, unvisited-le a l)

  SameElements-matched :
      (xs ys : List A)
      → SameElements xs ys
      → (l : List (Bool × A)) × (visit_all xs (fresh ys) ≡ some l) × (length xs ≡ length ys)
  SameElements-matched xs ys same =
      let (l, found) =
        visit_all_succeeds xs (fresh ys) (λ a. omega (arith, same a, unvisited-fresh a ys)) in
      let (each, all) = visit_all-counts xs (fresh ys) l found in
      let nothing = none_unvisited l (λ a. omega (arith, same a, each a, unvisited-fresh a ys)) in
      (l, found, omega (arith, all, nothing, all_unvisited-fresh ys))

  -- UnorderedEqual holds exactly where every value stands equally often in the two slices.
  pub unordered_equal_iff : (xs ys : List A) → (unordered_equal xs ys ≡ true) ↔ SameElements xs ys
  unfolding unordered_equal fresh
  unordered_equal_iff xs ys = (
    sound (visit_all xs (fresh ys)) refl (Bool-cases (nat_eq (length xs) (length ys))),
    λ same.
        let (l, found, lengths) = SameElements-matched xs ys same in
        rw ((nat_eq_iff (length xs) (length ys)).1 lengths, found) refl,
  )
    where
      sound :
          (o : Option (List (Bool × A)))
          → visit_all xs (fresh ys) ≡ o
          → ((nat_eq (length xs) (length ys) ≡ true) ⊎ (nat_eq (length xs) (length ys) ≡ false))
          → unordered_equal xs ys ≡ true
          → SameElements xs ys
      sound none e c h = absurd (ground (arith, e, h))
      sound (some l) e (inr differ) h = absurd (ground (arith, h, differ))
      sound (some l) e (inl same) h =
          matched-SameElements xs ys l e ((nat_eq_iff (length xs) (length ys)).0 same)
