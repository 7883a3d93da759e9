-- ===== src/Cluster/Times/Latest.antt =====
-- The finish time of a pod is the latest time at which one of its containers finished.
use walkai_nos.Base.{
  ◌≡◌, refl, sym, subst, ap, ◌∙◌, ◌⊎◌, inl, inr, true, false, ◌||◌, Option, none, some, List, [],
  ◌∷◌, ◌++◌, String_eq, ℤ, ◌≤ℤ◌, lt_ℤ, lt_ℤ→lt, lt_ℤ→ge, ◌==◌, All, All-append, All-map, Any,
  Bool-cases, arith,
}
use mathlib.Core.List.{append_assoc, append-nil}
use walkai_nos.Cluster.Times.{
  ContainerStatus, ClusterPod, finished_at, later_of, latest_finished_from, latest_finished_at,
  max_time, pod_finish_time,
}

-- No time is later, and some time is the same; without any time there is none.
abbrev pub IsMaximum : List ℤ → Option ℤ → Type 0
IsMaximum l none = l ≡ []
IsMaximum l (some m) = All (λ t. t ≤ℤ m) l × Any (λ t. t ≡ m) l

abbrev pub as_list : Option ℤ → List ℤ
as_list none = []
as_list (some t) = t ∷ []

-- The times at which containers finished, now and before.
abbrev pub finish_times : List ContainerStatus → List ℤ
finish_times [] = []
finish_times (s ∷ rest) =
    as_list (finished_at s.state)
    ++ as_list (finished_at s.last_termination_state)
    ++ finish_times rest

Any-left : (P : ℤ → Type 0) (l k : List ℤ) → Any P l → Any P (l ++ k)
Any-left P [] k h = absurd h
Any-left P (x ∷ l) k (inl h) = inl h
Any-left P (x ∷ l) k (inr h) = inr (Any-left P l k h)

Any-right : (P : ℤ → Type 0) (l k : List ℤ) → Any P k → Any P (l ++ k)
Any-right P [] k h = h
Any-right P (x ∷ l) k h = inr (Any-right P l k h)

max_time-IsMaximum :
    (l k : List ℤ) (a b : Option ℤ)
    → IsMaximum l a
    → IsMaximum k b
    → IsMaximum (l ++ k) (max_time a b)
unfolding max_time
max_time-IsMaximum l k none none h j = rw (h, j) refl
max_time-IsMaximum l k (some m) none h j =
    subst (λ t. IsMaximum t (some m)) (sym (append-nil l) ∙ ap (λ t. l ++ t) (sym j)) h
max_time-IsMaximum l k none (some n) h j = subst (λ t. IsMaximum (t ++ k) (some n)) (sym h) j
max_time-IsMaximum l k (some m) (some n) h j = elim (Bool-cases (lt_ℤ m n)) [
  | inl later ↦
      rw (max_time, later)
        (
          All-append (λ t. t ≤ℤ n) l k
              (All-map (λ t (less : t ≤ℤ m). omega (arith, lt_ℤ→lt m n later)) l h.0) j.0,
          Any-right (λ t. t ≡ n) l k j.1,
        )
  | inr earlier ↦
      rw (max_time, earlier)
        (
          All-append (λ t. t ≤ℤ m) l k h.0
              (All-map (λ t (less : t ≤ℤ n). omega (arith, lt_ℤ→ge m n earlier)) k j.0),
          Any-left (λ t. t ≡ m) l k h.1,
        )
]

one-IsMaximum : (a : Option ℤ) → IsMaximum (as_list a) a
one-IsMaximum none = refl
one-IsMaximum (some t) = ((omega arith, tt), inl refl)

later_of-max_time : (a b : Option ℤ) → max_time a b ≡ later_of a b
unfolding max_time
later_of-max_time a none = refl
later_of-max_time none (some t) = refl
later_of-max_time (some m) (some t) = refl

later_of-IsMaximum :
    (l : List ℤ) (a b : Option ℤ) → IsMaximum l a → IsMaximum (l ++ as_list b) (later_of a b)
later_of-IsMaximum l a b h =
    subst (IsMaximum (l ++ as_list b)) (later_of-max_time a b)
      (max_time-IsMaximum l (as_list b) a b h (one-IsMaximum b))

latest_from-IsMaximum :
    (statuses : List ContainerStatus) (l : List ℤ) (a : Option ℤ)
    → IsMaximum l a
    → IsMaximum (l ++ finish_times statuses) (latest_finished_from statuses a)
unfolding latest_finished_from
latest_from-IsMaximum [] l a h = subst (λ t. IsMaximum t a) (sym (append-nil l)) h
latest_from-IsMaximum (s ∷ rest) l a h =
    let now = finished_at s.state in
    let before = finished_at s.last_termination_state in
    let first = later_of-IsMaximum l a now h in
    let second = later_of-IsMaximum (l ++ as_list now) (later_of a now) before first in
    let all =
      latest_from-IsMaximum rest ((l ++ as_list now) ++ as_list before)
        (later_of (later_of a now) before) second in
    subst (λ t. IsMaximum t (latest_finished_from rest (later_of (later_of a now) before)))
      (ap (λ t. t ++ finish_times rest) (append_assoc l (as_list now) (as_list before))
        ∙ append_assoc l (as_list now ++ as_list before) (finish_times rest))
      all

latest-IsMaximum :
    (statuses : List ContainerStatus)
    → IsMaximum (finish_times statuses) (latest_finished_at statuses)
unfolding latest_finished_at
latest-IsMaximum statuses = latest_from-IsMaximum statuses [] none refl

-- Of all kinds of containers of the pod.
abbrev pub all_finish_times : ClusterPod → List ℤ
all_finish_times p =
    (finish_times p.init_container_statuses ++ finish_times p.container_statuses)
    ++ finish_times p.ephemeral_container_statuses

-- The finish time of a pod that has succeeded or failed is the latest of the times at which its
-- containers finished, and none if there is no such time; a pod in another phase has none.
pub pod_finish_time-IsMaximum :
    (p : ClusterPod)
    → (((p.pod.phase == "Succeeded" || p.pod.phase == "Failed") ≡ true)
        × IsMaximum (all_finish_times p) (pod_finish_time p))
      ⊎ (((p.pod.phase == "Succeeded" || p.pod.phase == "Failed") ≡ false)
          × (pod_finish_time p ≡ none))
unfolding pod_finish_time
pod_finish_time-IsMaximum p =
    let init = finish_times p.init_container_statuses in
    let containers = finish_times p.container_statuses in
    let ephemeral = finish_times p.ephemeral_container_statuses in
    elim (Bool-cases (p.pod.phase == "Succeeded" || p.pod.phase == "Failed")) [
      | inr going_on ↦ inr (going_on, rw (pod_finish_time, going_on) refl)
      | inl finished ↦
          let latest =
            max_time-IsMaximum (init ++ containers) ephemeral
              (max_time (latest_finished_at p.init_container_statuses)
                (latest_finished_at p.container_statuses))
              (latest_finished_at p.ephemeral_container_statuses)
              (max_time-IsMaximum init containers (latest_finished_at p.init_container_statuses)
                (latest_finished_at p.container_statuses)
                (latest-IsMaximum p.init_container_statuses)
                (latest-IsMaximum p.container_statuses))
              (latest-IsMaximum p.ephemeral_container_statuses) in
          inl (finished, rw (pod_finish_time, finished) latest)
    ]
