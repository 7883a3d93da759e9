-- ===== src/Resources/Examples.antt =====
-- Tests of the sums and differences of resources, with the scheduler's SetScalar as an update of the map.
use walkai_nos.Base.{◌+ℤ◌, ◌≡◌, refl, [], ◌∷◌, pos, negsuc, String_eq, max_ℤ, ◌-ℤ◌}
use walkai_nos.GoMap.{get?, put, amount}
use walkai_nos.Util.{get_keys}
use walkai_nos.GoMap.Laws.{get?-put, put-Distinct}
use walkai_nos.Resources.{
  Resource, ScalarSetter, set_scalars, clip_scalars, sum, subtract, subtract_non_negative,
}
use walkai_nos.Resources.Arithmetic.{Fieldwise, subtract_non_negative-Fieldwise}

abbrev put_scalar : ScalarSetter
put_scalar = record {
  set_scalar = λ r q res. record {
    milli_cpu = res.milli_cpu;
    memory = res.memory;
    ephemeral_storage = res.ephemeral_storage;
    allowed_pod_number = res.allowed_pod_number;
    scalar_resources = put r q res.scalar_resources;
  };
  keeps_fields = λ r q res. (refl, refl, refl, refl);
  sets = λ r j q res. get?-put r j q res.scalar_resources;
  keeps-Distinct = λ r q res d. put-Distinct r q res.scalar_resources d;
}

abbrev node_capacity : Resource
node_capacity = record {
  milli_cpu = pos 4000;
  memory = pos 64;
  ephemeral_storage = pos 10;
  allowed_pod_number = pos 110;
  scalar_resources = ("nvidia.com/mig-1g.10gb", pos 2) ∷ ("nvidia.com/gpu", pos 1) ∷ [];
}

abbrev pod_usage : Resource
pod_usage = record {
  milli_cpu = pos 5000;
  memory = pos 16;
  ephemeral_storage = pos 0;
  allowed_pod_number = pos 1;
  scalar_resources = ("nvidia.com/mig-2g.20gb", pos 1) ∷ ("nvidia.com/gpu", pos 1) ∷ [];
}

difference_of_scalars :
    (subtract put_scalar node_capacity pod_usage).scalar_resources
    ≡ ("nvidia.com/mig-1g.10gb", pos 2)
      ∷ ("nvidia.com/gpu", pos 0)
      ∷ ("nvidia.com/mig-2g.20gb", negsuc 0)
      ∷ []
unfolding subtract set_scalars get_keys put ◌-ℤ◌ amount get?
difference_of_scalars = refl

non_negative_difference : subtract_non_negative put_scalar node_capacity pod_usage ≡ record {
  milli_cpu = pos 0;
  memory = pos 48;
  ephemeral_storage = pos 10;
  allowed_pod_number = pos 109;
  scalar_resources =
      ("nvidia.com/mig-1g.10gb", pos 2)
      ∷ ("nvidia.com/gpu", pos 0)
      ∷ ("nvidia.com/mig-2g.20gb", pos 0)
      ∷ [];
}
unfolding subtract_non_negative clip_scalars set_scalars get_keys put ◌-ℤ◌ amount get?
non_negative_difference = refl

sum_of_memory : (sum put_scalar node_capacity pod_usage).memory ≡ pos 80
unfolding sum set_scalars get_keys put ◌+ℤ◌ amount get?
sum_of_memory = refl

subtract_non_negative-Fieldwise_example :
    Fieldwise
      (λ x y. max_ℤ (pos 0) (x -ℤ y))
      node_capacity
      pod_usage
      (subtract_non_negative put_scalar node_capacity pod_usage)
subtract_non_negative-Fieldwise_example =
    subtract_non_negative-Fieldwise put_scalar node_capacity pod_usage
