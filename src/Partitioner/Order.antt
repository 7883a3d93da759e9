-- ===== src/Partitioner/Order.antt =====
-- sort.SliceStable with the two orders of mig_controller.go: the waiting pods, and the candidates to
-- be evicted.
pub mod Sorted
use Prim.Native.String.{compare}
use text.Mathlib.Text.{is_lt}
use walkai_nos.Base.{
  ◌≡◌, Bool, true, false, ◌&&◌, not, List, [], ◌∷◌, ℕ, String, String_eq, ltb, nat_eq, lt_ℤ, eq_ℤ,
  ◌==◌, if◌then◌else◌,
}
use walkai_nos.Kube.{Pod}
use walkai_nos.Pods.{pod_priority_or_default}

module _ {ℓ} {A : Type ℓ} (before : A → A → Bool) where
  -- Behind the entries that are before `x`, and no further, so that equal entries keep their order.
  unfoldable pub insert_stable : A → List A → List A
  insert_stable x [] = x ∷ []
  insert_stable x (y ∷ ys) = if before y x then y ∷ insert_stable x ys else x ∷ y ∷ ys

  unfoldable pub sort_stable : List A → List A
  sort_stable [] = []
  sort_stable (x ∷ xs) = insert_stable x (sort_stable xs)

-- The higher priority first, then the older pod, then the lesser name.
unfoldable pub before_by_priority : Pod → Pod → Bool
before_by_priority p q =
    if not (eq_ℤ (pod_priority_or_default p) (pod_priority_or_default q))
    then lt_ℤ (pod_priority_or_default q) (pod_priority_or_default p)
    else if not (nat_eq p.creation_timestamp q.creation_timestamp)
    then ltb p.creation_timestamp q.creation_timestamp
    else is_lt (compare p.name q.name)

unfoldable pub sort_pods_by_priority_and_age : List Pod → List Pod
sort_pods_by_priority_and_age pods = sort_stable before_by_priority pods

-- The lower priority first, then the younger pod, then the lesser name.
unfoldable pub before_as_victim : Pod → Pod → Bool
before_as_victim p q =
    if not (eq_ℤ (pod_priority_or_default p) (pod_priority_or_default q))
    then lt_ℤ (pod_priority_or_default p) (pod_priority_or_default q)
    else if not (nat_eq p.creation_timestamp q.creation_timestamp)
    then ltb q.creation_timestamp p.creation_timestamp
    else is_lt (compare p.name q.name)
