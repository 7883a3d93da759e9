-- ===== src/Agent/Plan/Candidates.antt =====
-- extractCandidatesForDeletion of internal/controllers/migagent/plan/plan.go.
use walkai_nos.Base.{
  ◌≡◌, refl, sym, subst, ◌∙◌, ap, Bool, true, false, not, List, [], ◌∷◌, ◌++◌, ℕ, ◌+◌, ◌≤◌, ◌<◌,
  arith, nat_eq, ltb, if◌then◌else◌, length, length-append, All, All-append, Bool-cases, inl, inr,
  ◌⊎◌,
}
use mathlib.Core.List.{append_assoc, append-nil}
use walkai_nos.GoMap.Groups.{filter, count}
use walkai_nos.GoMap.Keyed.{length-filter, count-append}
use walkai_nos.Device.{Device, is_free, get_free}
use walkai_nos.Agent.Plan.{take_candidates, extract_candidates_for_deletion}

-- The loop stops with as many candidates as asked for, or at the end of the list.
take-length :
    (test : Device → Bool) (n : ℕ) (l c : List Device)
    → length c < n
    → n ≤ length c + count test l
    → length (take_candidates test n l c) ≡ n
unfolding take_candidates count
take-length test n [] c small enough = omega arith
take-length test n (r ∷ rest) c small enough = ground (
  arith,
  length-append c (r ∷ []),
  take-length test n rest (c ++ r ∷ []),
  take-length test n rest c,
)

take_all :
    (test : Device → Bool) (n : ℕ) (l c : List Device)
    → length c + count test l < n
    → take_candidates test n l c ≡ c ++ filter test l
unfolding take_candidates count filter
take_all test n [] c few = sym (append-nil c)
take_all test n (r ∷ rest) c few = ground (
  arith,
  length-append c (r ∷ []),
  append_assoc c (r ∷ []) (filter test rest),
  take_all test n rest (c ++ r ∷ []),
  take_all test n rest c,
)

take-All :
    (P : Device → Type 0) (test : Device → Bool) (n : ℕ) (l c : List Device)
    → All P l
    → All P c
    → All P (take_candidates test n l c)
unfolding take_candidates
take-All P test n [] c hl hc = hc
take-All P test n (r ∷ rest) c hl hc = ground (
  arith,
  hl.0,
  hc,
  take-All P test n rest (c ++ r ∷ []) hl.1,
  take-All P test n rest c hl.1 hc,
  All-append P c (r ∷ []) hc,
)

-- The loop keeps what it has, and adds entries that pass the test.
take_adds :
    (test : Device → Bool) (n : ℕ) (l c : List Device)
    → (taken : List Device) × (take_candidates test n l c ≡ c ++ taken)
      × All (λ d. test d ≡ true) taken
unfolding take_candidates
take_adds test n [] c = ([], sym (append-nil c), tt)
take_adds test n (r ∷ rest) c =
    step (take_adds test n rest (c ++ r ∷ [])) (take_adds test n rest c) (Bool-cases (test r))
      (Bool-cases (nat_eq (length (if test r then c ++ r ∷ [] else c)) n))
  where
    Adds : List Device → List Device → Type 0
    Adds old new = (taken : List Device) × (new ≡ old ++ taken) × All (λ d. test d ≡ true) taken

    step :
        Adds (c ++ r ∷ []) (take_candidates test n rest (c ++ r ∷ []))
        → Adds c (take_candidates test n rest c)
        → ((test r ≡ true) ⊎ (test r ≡ false))
        → ((nat_eq (length (if test r then c ++ r ∷ [] else c)) n ≡ true)
            ⊎ (nat_eq (length (if test r then c ++ r ∷ [] else c)) n ≡ false))
        → Adds c (take_candidates test n (r ∷ rest) c)
    step one two (inl hit) (inl stop) = (r ∷ [], ground (arith, hit, stop), (hit, tt))
    step one two (inr miss) (inl stop) = ([], ground (arith, miss, stop, append-nil c), tt)
    step (taken, eq, all) two (inl hit) (inr go) =
        (r ∷ taken, ground (arith, hit, go, eq, append_assoc c (r ∷ []) taken), (hit, all))
    step one (taken, eq, all) (inr miss) (inr go) = (taken, ground (arith, miss, go, eq), all)

counts_add : (l : List Device) → count is_free l + count (λ r. not (is_free r)) l ≡ length l
unfolding count
counts_add [] = refl
counts_add (r ∷ rest) = ground (arith, counts_add rest)

pub extract-All :
    (P : Device → Type 0) (l : List Device) (n : ℕ)
    → All P l
    → All P (extract_candidates_for_deletion l n)
unfolding extract_candidates_for_deletion
extract-All P l n h = ground (
  arith,
  take-All P is_free n l [] h tt,
  take-All P (λ r. not (is_free r)) n l (take_candidates is_free n l []) h,
)

extract_many :
    (l : List Device) (n : ℕ)
    → 0 < n
    → n ≤ count is_free l
    → (extract_candidates_for_deletion l n ≡ take_candidates is_free n l [])
      × (length (extract_candidates_for_deletion l n) ≡ n)
unfolding extract_candidates_for_deletion
extract_many l n pos many =
    let len = take-length is_free n l [] pos (omega (arith, many)) in
    (ground (arith, len), ground (arith, len))

extract_few :
    (l : List Device) (n : ℕ)
    → count is_free l < n
    → extract_candidates_for_deletion l n ≡ take_candidates (λ r. not (is_free r)) n l (get_free l)
unfolding extract_candidates_for_deletion get_free
extract_few l n few =
    ground (arith, take_all is_free n l [] (omega (arith, few)), length-filter is_free l)

few-length :
    (l : List Device) (n : ℕ)
    → count is_free l < n
    → n ≤ length l
    → length (take_candidates (λ r. not (is_free r)) n l (get_free l)) ≡ n
unfolding get_free
few-length l n few enough =
    take-length (λ r. not (is_free r)) n l (filter is_free l)
      (omega (arith, few, length-filter is_free l))
      (omega (arith, enough, length-filter is_free l, counts_add l))

-- What is added passes the test, and is taken from the list, each entry once.
take_counts :
    (test f : Device → Bool) (n : ℕ) (l c : List Device)
    → count f (take_candidates test n l c) ≤ count f c + count f (filter test l)
unfolding take_candidates count filter
take_counts test f n [] c = omega arith
take_counts test f n (r ∷ rest) c = ground (
  arith,
  count-append f c (r ∷ []),
  take_counts test f n rest (c ++ r ∷ []),
  take_counts test f n rest c,
)

filters_add :
    (f : Device → Bool) (l : List Device)
    → count f (filter is_free l) + count f (filter (λ r. not (is_free r)) l) ≡ count f l
unfolding count filter
filters_add f [] = refl
filters_add f (r ∷ rest) = ground (arith, filters_add f rest)

extract_counts :
    (f : Device → Bool) (l : List Device) (n : ℕ)
    → 0 < n
    → count f (extract_candidates_for_deletion l n) ≤ count f l
unfolding extract_candidates_for_deletion get_free count
extract_counts f l n pos = elim (Bool-cases (ltb (count is_free l) n)) [
  | inl few ↦
      rw (extract_few l n (ground (arith, few))) (
        omega (arith, take_counts (λ r. not (is_free r)) f n l (filter is_free l), filters_add f l))
  | inr many ↦
      rw ((extract_many l n pos (ground (arith, many))).0)
        (omega (arith, take_counts is_free f n l [], filters_add f l, nothing_counted))
]
  where
    nothing_counted : count f [] ≡ 0
    nothing_counted = refl

-- What extractCandidatesForDeletion returns for `n` of the devices `l`.
abbrev pub Candidates : List Device → ℕ → List Device → Type 0
Candidates l n out =
    (length out ≡ n)
    × ((f : Device → Bool) → count f out ≤ count f l)
    × (n ≤ count is_free l → All (λ d. is_free d ≡ true) out)
    × (count is_free l < n
        → (more : List Device) × (out ≡ get_free l ++ more)
          × All (λ d. not (is_free d) ≡ true) more)

-- Asked for `n > 0` of at least `n` devices, extractCandidatesForDeletion returns exactly `n` of
-- them: what it returns has no device more often than the devices have it, by any test. Where `n` of them are free, it returns free ones only; otherwise it returns every free
-- device and then others.
pub extract_outcomes :
    (l : List Device) (n : ℕ)
    → 0 < n
    → n ≤ length l
    → Candidates l n (extract_candidates_for_deletion l n)
extract_outcomes l n pos enough = elim (Bool-cases (ltb (count is_free l) n)) [
  | inl few ↦
      let lt : count is_free l < n = ground (arith, few) in
      let eq = extract_few l n lt in
      let (more, same, others) = take_adds (λ r. not (is_free r)) n l (get_free l) in
      (
        ap length eq ∙ few-length l n lt enough,
        λ f. extract_counts f l n pos,
        λ le. absurd (ground (arith, lt, le)),
        λ _. (more, eq ∙ same, others),
      )
  | inr many ↦
      let (eq, len) = extract_many l n pos (ground (arith, many)) in
      let (taken, same, frees) = take_adds is_free n l [] in
      (
        len,
        λ f. extract_counts f l n pos,
        λ _. subst (All (λ d. is_free d ≡ true)) (sym (eq ∙ same)) frees,
        λ fewer. absurd (ground (arith, many, fewer)),
      )
]
