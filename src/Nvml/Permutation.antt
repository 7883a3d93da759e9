-- ===== src/Nvml/Permutation.antt =====
-- pkg/util/stat.go: the permutations of a slice, over the generator of gonum, and the loop over them.
use walkai_nos.Base.{List, [], ◌∷◌, ◌++◌, map, ℕ, zero, suc, length, nat_eq, if◌then◌else◌}
use walkai_nos.Nvml.{Log}

-- What `f` returns: (false, nil), (true, nil), or an error.
pub data Step : Type 0 where
  stop go_on failure : Step

module _ {ℓ} {A : Type ℓ} where
  -- The element at an index, as a list. The generator gives no index out of range.
  unfoldable pub element_at : List A → ℕ → List A
  element_at [] i = []
  element_at (x ∷ xs) zero = x ∷ []
  element_at (x ∷ xs) (suc i) = element_at xs i

  unfoldable pub permutation : List A → List ℕ → List A
  unfolding element_at
  permutation source [] = []
  permutation source (index ∷ rest) = element_at source index ++ permutation source rest

  -- `orders n` are the permutations of the numbers below `n`, in the order of the generator.
  unfoldable pub permutations : (ℕ → List (List ℕ)) → List A → List (List A)
  unfolding permutation
  permutations orders source =
      if nat_eq (length source) 0 then [] else map (permutation source) (orders (length source))

  -- IterPermutations over these: `go_on` is the end of the loop behind the last permutation.
  unfoldable pub iter_permutations : (List A → Log → Step × Log) → List (List A) → Log → Step × Log
  iter_permutations f [] t = (go_on, t)
  iter_permutations f (perm ∷ rest) t =
      let (step, u) = f perm t in
      let later = iter_permutations f rest u in
      elim step [ stop ↦ (stop, u) | failure ↦ (failure, u) | go_on ↦ later ]
