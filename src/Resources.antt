-- ===== src/Resources.antt =====
-- pkg/resource/resource.go: sums, differences and absolute values of the scheduler's resources.
pub mod Keys
pub mod Scalars
pub mod Arithmetic
mod Examples
use walkai_nos.Base.{
  ◌≡◌, List, [], ◌∷◌, ℤ, pos, ◌+ℤ◌, ◌-ℤ◌, lt_ℤ, max_ℤ, some, String, String_eq, if◌then◌else◌, ◌==◌,
}
use walkai_nos.GoMap.{GoMap, get?, put, amount, Distinct}
use walkai_nos.Mig.Profile.{ResourceName}
use walkai_nos.Util.{get_keys}

-- framework.Resource of the Kubernetes scheduler; a nil map of scalars reads as an empty one.
record Resource : Type 0 where
  pub milli_cpu : ℤ
  pub memory : ℤ
  pub ephemeral_storage : ℤ
  pub allowed_pod_number : ℤ
  pub scalar_resources : GoMap ResourceName ℤ

-- The fields that are no map.
abbrev SameFields : Resource → Resource → Type 0
SameFields a b =
    (a.milli_cpu ≡ b.milli_cpu)
    × (a.memory ≡ b.memory)
    × (a.ephemeral_storage ≡ b.ephemeral_storage)
    × (a.allowed_pod_number ≡ b.allowed_pod_number)

-- SetScalar of framework.Resource, which is not code of the repository: it sets one scalar resource.
record ScalarSetter : Type 0 where
  pub set_scalar : ResourceName → ℤ → Resource → Resource
  pub keeps_fields :
      (r : ResourceName) (q : ℤ) (res : Resource) → SameFields (set_scalar r q res) res
  pub sets :
      (r j : ResourceName) (q : ℤ) (res : Resource)
      → get? j (set_scalar r q res).scalar_resources
        ≡ (if r == j then some q else get? j res.scalar_resources)
  pub keeps-Distinct :
      (r : ResourceName) (q : ℤ) (res : Resource)
      → Distinct res.scalar_resources
      → Distinct (set_scalar r q res).scalar_resources

-- The assignments to the fields of an empty Resource in Sum and in Subtract.
abbrev merge_fields : (ℤ → ℤ → ℤ) → Resource → Resource → Resource
merge_fields op r1 r2 = record {
  milli_cpu = op r1.milli_cpu r2.milli_cpu;
  memory = op r1.memory r2.memory;
  ephemeral_storage = op r1.ephemeral_storage r2.ephemeral_storage;
  allowed_pod_number = op r1.allowed_pod_number r2.allowed_pod_number;
  scalar_resources = [];
}

-- The assignments to the fields of the difference in SubtractNonNegative.
abbrev clip_fields : Resource → Resource
clip_fields res = record {
  milli_cpu = max_ℤ (pos 0) res.milli_cpu;
  memory = max_ℤ (pos 0) res.memory;
  ephemeral_storage = max_ℤ (pos 0) res.ephemeral_storage;
  allowed_pod_number = max_ℤ (pos 0) res.allowed_pod_number;
  scalar_resources = res.scalar_resources;
}

module _ (s : ScalarSetter) where
  -- The loop over the keys of both maps, with what it computes for a key.
  unfoldable set_scalars : (ResourceName → ℤ) → List ResourceName → Resource → Resource
  set_scalars f [] res = res
  set_scalars f (r ∷ rest) res = set_scalars f rest (s.set_scalar r (f r) res)

  -- Sum and Subtract are the same code with another operator.
  abbrev merge : (ℤ → ℤ → ℤ) → Resource → Resource → Resource
  merge op r1 r2 =
      set_scalars (λ r. op (amount r r1.scalar_resources) (amount r r2.scalar_resources))
        (get_keys r1.scalar_resources r2.scalar_resources) (merge_fields op r1 r2)

  unfoldable sum : Resource → Resource → Resource
  sum r1 r2 = merge (λ x y. x +ℤ y) r1 r2

  unfoldable subtract : Resource → Resource → Resource
  subtract r1 r2 = merge (λ x y. x -ℤ y) r1 r2

  -- The loop over the entries of the difference, which writes an entry's value back at its own key.
  unfoldable clip_scalars : GoMap ResourceName ℤ → Resource → Resource
  clip_scalars [] res = res
  clip_scalars ((r, v) ∷ rest) res = clip_scalars rest (s.set_scalar r (max_ℤ (pos 0) v) res)

  unfoldable subtract_non_negative : Resource → Resource → Resource
  unfolding subtract
  subtract_non_negative r1 r2 =
      let res = subtract r1 r2 in clip_scalars res.scalar_resources (clip_fields res)
