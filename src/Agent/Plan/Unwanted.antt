-- ===== src/Agent/Plan/Unwanted.antt =====
-- getResourcesNotIncludedInSpec: the devices of the profiles that the spec does not name.
use walkai_nos.Base.{
  ◌≡◌, sym, ◌∙◌, ap, true, false, not, ◌&&◌, List, [], ◌∷◌, map, ℕ, arith, if◌then◌else◌, ◌==◌, All,
  Bool-cases, inl, inr, ◌⊎◌, ℤ, int_eq, String_eq,
}
use walkai_nos.GoMap.{Distinct}
use walkai_nos.GoMap.Laws.{put-Distinct}
use walkai_nos.GoMap.Groups.{
  filter, count, list_at, list_at-put, list_at-group_by, group_by, group_by-Distinct, flatten,
  IsKeyed,
}
use walkai_nos.GoMap.Keyed.{
  group_by-IsKeyed, list_at-All, put-IsKeyed, count-filter, filter-flatten,
}
use walkai_nos.Geometry.{ProfileName}
use walkai_nos.Mig.Profile.{Profile, Profile_eq}
use walkai_nos.Device.{Device, profile_of, get_mig_profile_name}
use walkai_nos.Annotation.{SpecAnnotation}
use walkai_nos.Agent.State.{MigState, new_mig_state, deep_copy, in_slice, without_mig_profiles}
use walkai_nos.Agent.Plan.Net.{of_profile}
use walkai_nos.GoMap.Every.{All-filter}
use walkai_nos.Agent.Plan.Gpus.{of_spec}

-- The devices of each GPU stand under its index, once.
pub record IsState (s : MigState) : Type 0 where
  pub distinct : Distinct s
  pub keyed : IsKeyed (λ d. d.gpu_index) s

pub new_mig_state-IsState : (l : List Device) → IsState (new_mig_state l)
unfolding new_mig_state
new_mig_state-IsState l = record {
  distinct = group_by-Distinct (λ d. d.gpu_index) l;
  keyed = group_by-IsKeyed (λ d. d.gpu_index) l;
}

on_gpu :
    (k : Profile) (d : Device) → (profile_of d == k) ≡ true → (d.gpu_index == k.gpu_index) ≡ true
on_gpu k d h = ground arith

-- The devices of a profile are all on its GPU.
pub of_profile-filter :
    (k : Profile) (l : List Device)
    → of_profile k (filter (λ d. d.gpu_index == k.gpu_index) l) ≡ of_profile k l
of_profile-filter k l =
    count-filter (λ d. profile_of d == k) (λ d. d.gpu_index == k.gpu_index) l (on_gpu k)

of_profile-flatten :
    (k : Profile) (s : MigState)
    → IsState s
    → of_profile k (flatten s) ≡ of_profile k (list_at k.gpu_index s)
of_profile-flatten k s v =
    sym (of_profile-filter k (flatten s))
    ∙ ap (of_profile k) (filter-flatten (λ d. d.gpu_index) k.gpu_index s v.distinct v.keyed)

pub of_profile-grouped :
    (k : Profile) (l : List Device)
    → of_profile k (list_at k.gpu_index (group_by (λ d. d.gpu_index) l)) ≡ of_profile k l
of_profile-grouped k l =
    ap (of_profile k) (list_at-group_by (λ d. d.gpu_index) k.gpu_index l) ∙ of_profile-filter k l

pub of_profile-new_mig_state :
    (k : Profile) (l : List Device) → of_profile k (flatten (new_mig_state l)) ≡ of_profile k l
unfolding new_mig_state
of_profile-new_mig_state k l =
    of_profile-flatten k (new_mig_state l) (new_mig_state-IsState l) ∙ of_profile-grouped k l

-- Removing the devices whose names are listed.
of_profile-unlisted :
    (k : Profile) (names : List ProfileName) (l : List Device)
    → of_profile k (filter (λ r. not (in_slice (get_mig_profile_name r) names)) l)
      ≡ (if in_slice k.name names then 0 else of_profile k l)
unfolding filter count
of_profile-unlisted k names [] = ground arith
of_profile-unlisted k names (d ∷ rest) = ground (
  arith,
  of_profile-unlisted k names rest,
  String_eq.same_iff (get_mig_profile_name d) k.name,
  ap (λ name. in_slice name names),
)

pub without-IsState :
    (s : MigState) (i : ℤ) (names : List ProfileName)
    → IsState s
    → IsState (without_mig_profiles s i names)
unfolding without_mig_profiles deep_copy
without-IsState s i names v = record {
  distinct =
      put-Distinct i (filter (λ r. not (in_slice (get_mig_profile_name r) names)) (list_at i s))
        (new_mig_state (flatten s)) (new_mig_state-IsState (flatten s)).distinct;
  keyed =
      put-IsKeyed (λ d. d.gpu_index) i
        (filter (λ r. not (in_slice (get_mig_profile_name r) names)) (list_at i s))
        (new_mig_state (flatten s))
        (All-filter (λ d. d.gpu_index ≡ i) (λ r. not (in_slice (get_mig_profile_name r) names))
          (list_at i s) (list_at-All (λ d. d.gpu_index) i s v.keyed))
        (new_mig_state-IsState (flatten s)).keyed;
}

pub of_profile-without :
    (k : Profile) (s : MigState) (i : ℤ) (names : List ProfileName)
    → IsState s
    → of_profile k (flatten (without_mig_profiles s i names))
      ≡ (if i == k.gpu_index && in_slice k.name names then 0 else of_profile k (flatten s))
unfolding without_mig_profiles deep_copy
of_profile-without k s i names v =
    of_profile-flatten k (without_mig_profiles s i names) (without-IsState s i names v)
    ∙ ap (of_profile k) (list_at-put i k.gpu_index kept (new_mig_state (flatten s)))
    ∙ chosen (Bool-cases (i == k.gpu_index))
  where
    kept : List Device
    kept = filter (λ r. not (in_slice (get_mig_profile_name r) names)) (list_at i s)

    chosen :
        ((i == k.gpu_index) ≡ true) ⊎ ((i == k.gpu_index) ≡ false)
        → of_profile k
            (if i == k.gpu_index then kept else list_at k.gpu_index (new_mig_state (flatten s)))
          ≡ (if i == k.gpu_index && in_slice k.name names then 0 else of_profile k (flatten s))
    chosen (inl hit) = rw hit (
        of_profile-unlisted k names (list_at i s)
        ∙ ap (λ n. if in_slice k.name names then 0 else n)
            (ap (λ j. of_profile k (list_at j s)) ((int_eq.same_iff i k.gpu_index).0 hit)
              ∙ sym (of_profile-flatten k s v)))
    chosen (inr miss) = rw miss (of_profile-grouped k (flatten s))

-- What is left of `n` devices of a profile whose annotations are given.
abbrev pub left : List SpecAnnotation → ℕ → ℕ
left [] n = n
left (a ∷ rest) n = 0

pub of_spec-in_slice :
    (k : Profile) (i : ℤ) (l : List SpecAnnotation) (n : ℕ)
    → All (λ a. a.index ≡ i) l
    → left (of_spec k l) n
      ≡ (if i == k.gpu_index && in_slice k.name (map (λ a. a.profile_name) l) then 0 else n)
unfolding filter in_slice
of_spec-in_slice k i [] n h = ground arith
of_spec-in_slice k i (a ∷ rest) n h =
    ground (arith, h.0, of_spec-in_slice k i rest n h.1, int_eq.same_iff i k.gpu_index)
