-- ===== src/Mig/NodeExamples.antt =====
-- The theorems on a node of two GPUs.
use walkai_nos.Base.{
  ◌-ℤ◌, true, false, arith, ◌≡◌, refl, ◌⊎◌, none, some, List, [], ◌∷◌, ℤ, pos, All, String_eq,
}
use walkai_nos.GoMap.{GoMap, get?, amount}
use walkai_nos.Mig.Devices.{covers}
use walkai_nos.Geometry.{ProfileName}
use walkai_nos.Mig.Gpu.{Gpu, not_enough_free_devices}
use walkai_nos.Mig.Devices.Pods.{Fits}
use walkai_nos.Mig.Gpu.Valid.{IsValid}
use walkai_nos.Mig.Node.{add_pod_to_first, release_all}
use walkai_nos.Mig.Node.ReleaseAll.{UsedOnNode, AllMoved, release_all_outcomes}
use walkai_nos.Mig.Node.Pods.{TakenByFirst, add_pod_to_first_outcomes}
use walkai_nos.Mig.Examples.{a100_small, a100_busy, a100_small-IsValid, a100_busy-IsValid}

abbrev two_gpus : List Gpu
two_gpus = a100_small ∷ a100_busy ∷ []

abbrev one_3g : GoMap ProfileName ℤ
one_3g = ("3g.20gb", pos 1) ∷ []

add_pod_to_first_outcomes_example :
    (((add_pod_to_first one_3g two_gpus).1 ≡ none)
      × TakenByFirst one_3g two_gpus (add_pod_to_first one_3g two_gpus).0)
    ⊎ (((add_pod_to_first one_3g two_gpus).1 ≡ some not_enough_free_devices)
        × All (λ g. ¬ Fits one_3g g) two_gpus)
unfolding get?
add_pod_to_first_outcomes_example = add_pod_to_first_outcomes one_3g two_gpus (refl, tt)

abbrev to_release : GoMap ProfileName ℤ
to_release = ("1g.5gb", pos 1) ∷ []

release_all_outcomes_example :
    (UsedOnNode to_release two_gpus
      × ((release_all to_release two_gpus).1 ≡ true)
      × AllMoved to_release two_gpus (release_all to_release two_gpus).0
      × All IsValid (release_all to_release two_gpus).0)
    ⊎ (¬ UsedOnNode to_release two_gpus × ((release_all to_release two_gpus).1 ≡ false))
unfolding get?
release_all_outcomes_example =
    release_all_outcomes to_release two_gpus (a100_small-IsValid, (a100_busy-IsValid, tt))
      (refl, tt) (omega arith, tt)

one_released : (release_all to_release two_gpus).1 ≡ true
unfolding release_all amount get? covers ◌-ℤ◌
one_released = refl
