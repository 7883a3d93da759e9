-- ===== src/Mig/Node/Pods.antt =====
-- AddPod of pkg/gpu/mig/node.go: which GPU takes the pod.
use walkai_nos.Base.{
  String_eq, ◌≡◌, refl, subst, sym, none, some, List, [], ◌∷◌, ℤ, pos, ◌≤ℤ◌, All, inl, inr, ◌⊎◌,
  Option,
}
use walkai_nos.GoMap.{GoMap, Distinct}
use walkai_nos.Geometry.{ProfileName}
use walkai_nos.Mig.Gpu.{Gpu, Error, not_enough_free_devices}
use walkai_nos.Mig.Gpu.Valid.{IsValid}
use walkai_nos.Mig.Devices.{add_pod}
use walkai_nos.Mig.Devices.Pods.{Fits, Taken, add_pod_outcomes, add_pod_keeps}
use walkai_nos.Mig.Node.{add_pod_to_first}

-- The pod is taken by the first GPU that fits.
abbrev pub TakenByFirst : GoMap ProfileName ℤ → List Gpu → List Gpu → Type 0
TakenByFirst requested [] after = ⊥
TakenByFirst requested (g ∷ rest) [] = ⊥
TakenByFirst requested (g ∷ rest) (h ∷ others) =
    (Fits requested g × Taken requested g h × (others ≡ rest))
    ⊎ (¬ Fits requested g × TakenByFirst requested rest others)

-- AddPod of a node has two outcomes, for a request that names each profile once: the first GPU that
-- has every requested device free takes them and the GPUs after it are unchanged; or no GPU has them
-- all, and there is an error.
pub add_pod_to_first_outcomes :
    (requested : GoMap ProfileName ℤ) (gpus : List Gpu)
    → Distinct requested
    → (((add_pod_to_first requested gpus).1 ≡ none)
        × TakenByFirst requested gpus (add_pod_to_first requested gpus).0)
      ⊎ (((add_pod_to_first requested gpus).1 ≡ some not_enough_free_devices)
          × All (λ g. ¬ Fits requested g) gpus)
unfolding add_pod_to_first
add_pod_to_first_outcomes requested [] d = inr (refl, tt)
add_pod_to_first_outcomes requested (g ∷ rest) d = elim (add_pod_outcomes requested g d) [
  | inl (fits, done, taken) ↦
      subst (λ o. Out (pick o)) (sym done) (inl (refl, inl (fits, taken, refl)))
  | inr (short, failed) ↦
      subst (λ o. Out (pick o)) (sym failed)
        (later short (add_pod_to_first_outcomes requested rest d))
]
  where
    others : List Gpu × Option Error
    others = add_pod_to_first requested rest

    pick : Option Error → List Gpu × Option Error
    pick none = ((add_pod requested g).0 ∷ rest, none)
    pick (some _) = ((add_pod requested g).0 ∷ others.0, others.1)

    Out : List Gpu × Option Error → Type 0
    Out r =
        ((r.1 ≡ none) × TakenByFirst requested (g ∷ rest) r.0)
        ⊎ ((r.1 ≡ some not_enough_free_devices) × All (λ x. ¬ Fits requested x) (g ∷ rest))

    later :
        ¬ Fits requested g
        → ((others.1 ≡ none) × TakenByFirst requested rest others.0)
          ⊎ ((others.1 ≡ some not_enough_free_devices) × All (λ x. ¬ Fits requested x) rest)
        → Out (pick (some not_enough_free_devices))
    later short (inl (done, by_first)) = inl (done, inr (short, by_first))
    later short (inr (none_fits, all)) = inr (none_fits, (short, all))

-- Whatever the outcome, AddPod of a node keeps every GPU valid if no requested quantity is negative.
add_pod_to_first-IsValid :
    (requested : GoMap ProfileName ℤ) (gpus : List Gpu)
    → All IsValid gpus
    → All (λ e. pos 0 ≤ℤ e.1) requested
    → All IsValid (add_pod_to_first requested gpus).0
unfolding add_pod_to_first
add_pod_to_first-IsValid requested [] v h = tt
add_pod_to_first-IsValid requested (g ∷ rest) v h =
    split (add_pod requested g).1 (add_pod_keeps requested g v.0 h).0
      (add_pod_to_first-IsValid requested rest v.1 h)
  where
    split :
        (o : Option Error)
        → IsValid (add_pod requested g).0
        → All IsValid (add_pod_to_first requested rest).0
        → All IsValid
            (elim o as (λ _. List Gpu × Option Error) [
              | none ↦ ((add_pod requested g).0 ∷ rest, none)
              | some _ ↦ (
                (add_pod requested g).0 ∷ (add_pod_to_first requested rest).0,
                (add_pod_to_first requested rest).1,
              )
            ]).0
    split none valid later = (valid, v.1)
    split (some _) valid later = (valid, later)
