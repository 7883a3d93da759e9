-- ===== src/Mig/Devices/Pods.antt =====
-- AddPod of pkg/gpu/mig/gpu.go.
use walkai_nos.Base.{
  ◌≡◌, refl, none, some, [], ◌∷◌, ℤ, pos, ◌≤ℤ◌, ◌+ℤ◌, ◌-ℤ◌, arith, String_eq, +ℤ_parts, -ℤ_parts,
  eq_of_parts, int_laws, ◌==◌, lt_ℤ, Bool-cases, All, ◌∙◌, inl, inr, ◌⊎◌, order_laws,
}
use walkai_nos.GoMap.{GoMap, get?, amount, Distinct}
use walkai_nos.GoMap.Quantities.{amount-nil, amount-cons, amount-none, amount-add_at, amount-sub_at}
use walkai_nos.Geometry.{ProfileName}
use walkai_nos.Mig.Gpu.{Gpu, not_enough_free_devices}
use walkai_nos.Mig.Gpu.Valid.{IsValid}
use walkai_nos.Mig.Devices.{take_devices, add_pod}
use walkai_nos.Mig.Devices.Moves.{take_devices-IsValid}

-- The GPU has the free devices that the pod requests.
abbrev pub Fits : GoMap ProfileName ℤ → Gpu → Type 0
Fits requested g =
    (p : ProfileName) (q : ℤ) → get? p requested ≡ some q → q ≤ℤ amount p g.free_mig_devices

-- Every requested device has moved from free to used.
pub record Taken (requested : GoMap ProfileName ℤ) (g g' : Gpu) : Type 0 where
  pub used :
      (p : ProfileName)
      → amount p g'.used_mig_devices ≡ amount p g.used_mig_devices +ℤ amount p requested
  pub free :
      (p : ProfileName)
      → amount p g'.free_mig_devices ≡ amount p g.free_mig_devices -ℤ amount p requested

Taken-nil : (g : Gpu) → Taken [] g g
Taken-nil g = record {
  used = λ p. rw (amount-nil p) (omega int_laws);
  free = λ p. rw (amount-nil p) (omega int_laws);
}

module _ (r : ProfileName) (q : ℤ) (rest : GoMap ProfileName ℤ) (g : Gpu) where
  Taken-cons :
      (g' : Gpu)
      → get? r rest ≡ none
      → Taken rest (take_devices r q g) g'
      → Taken ((r, q) ∷ rest) g g'
  unfolding take_devices
  Taken-cons g' fresh t = record {
    used = λ p. ground (
      arith,
      t.used p,
      amount-add_at r p q g.used_mig_devices,
      amount-cons r p q rest,
      amount-none r rest fresh,
      String_eq.same_iff r p,
      +ℤ_parts (amount p g.used_mig_devices +ℤ q) (pos 0),
      eq_of_parts (amount p g.used_mig_devices +ℤ q +ℤ pos 0) (amount p g.used_mig_devices +ℤ q),
    );
    free = λ p. ground (
      arith,
      t.free p,
      amount-sub_at r p q g.free_mig_devices,
      amount-cons r p q rest,
      amount-none r rest fresh,
      String_eq.same_iff r p,
      -ℤ_parts (amount p g.free_mig_devices -ℤ q) (pos 0),
      eq_of_parts (amount p g.free_mig_devices -ℤ q -ℤ pos 0) (amount p g.free_mig_devices -ℤ q),
    );
  }

  Fits-rest : get? r rest ≡ none → Fits ((r, q) ∷ rest) g → Fits rest (take_devices r q g)
  unfolding take_devices get?
  Fits-rest fresh h p w found =
      ground (arith, h p w, amount-sub_at r p q g.free_mig_devices, String_eq.same_iff r p)

  Fits-head : Fits ((r, q) ∷ rest) g → q ≤ℤ amount r g.free_mig_devices
  unfolding get?
  Fits-head h = ground (arith, h r q, String_eq.same_iff r r)

take_devices_total :
    (r : ProfileName) (q : ℤ) (g : Gpu) (p : ProfileName)
    → amount p (take_devices r q g).used_mig_devices
        +ℤ amount p (take_devices r q g).free_mig_devices
      ≡ amount p g.used_mig_devices +ℤ amount p g.free_mig_devices
unfolding take_devices
take_devices_total r q g p =
    rw (amount-add_at r p q g.used_mig_devices, amount-sub_at r p q g.free_mig_devices)
      (elim (Bool-cases (r == p)) [ inl hit ↦ rw hit (omega int_laws) | inr miss ↦ rw miss refl ])

add_pod-Taken :
    (requested : GoMap ProfileName ℤ) (g : Gpu)
    → Distinct requested
    → Fits requested g
    → ((add_pod requested g).1 ≡ none) × Taken requested g (add_pod requested g).0
unfolding add_pod
add_pod-Taken [] g d h = (refl, Taken-nil g)
add_pod-Taken ((r, q) ∷ rest) g d h = elim (Bool-cases (lt_ℤ (amount r g.free_mig_devices) q)) [
  | inl short ↦ absurd (omega (order_laws, Fits-head r q rest g h))
  | inr enough ↦
      let (done, taken) =
        add_pod-Taken rest (take_devices r q g) d.1 (Fits-rest r q rest g d.0 h) in
      rw enough (done, Taken-cons r q rest g _ d.0 taken)
]

add_pod-Fits :
    (requested : GoMap ProfileName ℤ) (g : Gpu)
    → Distinct requested
    → (add_pod requested g).1 ≡ none
    → Fits requested g
unfolding add_pod take_devices get?
add_pod-Fits [] g d h p q found = cc
add_pod-Fits ((r, q) ∷ rest) g d h p w found =
    elim (Bool-cases (lt_ℤ (amount r g.free_mig_devices) q)) [
      | inl short ↦ ground arith
      | inr enough ↦
          let more : (add_pod rest (take_devices r q g)).1 ≡ none = ground arith in
          ground (
            arith,
            add_pod-Fits rest (take_devices r q g) d.1 more p w,
            amount-sub_at r p q g.free_mig_devices,
            String_eq.same_iff r p,
            d.0,
          )
    ]

add_pod_error :
    (requested : GoMap ProfileName ℤ) (g : Gpu)
    → ((add_pod requested g).1 ≡ none) ⊎ ((add_pod requested g).1 ≡ some not_enough_free_devices)
unfolding add_pod
add_pod_error [] g = inl refl
add_pod_error ((r, q) ∷ rest) g = ground (arith, add_pod_error rest (take_devices r q g))

-- AddPod has two outcomes, for a request that names each profile once: if the GPU has every
-- requested device free, they all move from free to used; otherwise there is an error.
pub add_pod_outcomes :
    (requested : GoMap ProfileName ℤ) (g : Gpu)
    → Distinct requested
    → (Fits requested g
        × ((add_pod requested g).1 ≡ none)
        × Taken requested g (add_pod requested g).0)
      ⊎ (¬ Fits requested g × ((add_pod requested g).1 ≡ some not_enough_free_devices))
add_pod_outcomes requested g d = elim (add_pod_error requested g) [
  | inl done ↦
      let fits = add_pod-Fits requested g d done in
      inl (fits, done, (add_pod-Taken requested g d fits).1)
  | inr short ↦ inr ((λ fits. cc (short, (add_pod-Taken requested g d fits).0)), short)
]

-- Whatever the outcome, AddPod keeps the GPU valid and its geometry, profile by profile, if no
-- requested quantity is negative.
pub add_pod_keeps :
    (requested : GoMap ProfileName ℤ) (g : Gpu)
    → IsValid g
    → All (λ e. pos 0 ≤ℤ e.1) requested
    → IsValid (add_pod requested g).0
      × ((p : ProfileName)
          → amount p (add_pod requested g).0.used_mig_devices
              +ℤ amount p (add_pod requested g).0.free_mig_devices
            ≡ amount p g.used_mig_devices +ℤ amount p g.free_mig_devices)
unfolding add_pod
add_pod_keeps [] g v h = (v, λ p. refl)
add_pod_keeps ((r, q) ∷ rest) g v h = elim (Bool-cases (lt_ℤ (amount r g.free_mig_devices) q)) [
  | inl short ↦ rw short (v, λ p. refl)
  | inr enough ↦
      let (v', same) =
        add_pod_keeps rest (take_devices r q g)
          (take_devices-IsValid r q g v h.0 (omega order_laws)) h.1 in
      rw enough (v', λ p. same p ∙ take_devices_total r q g p)
]
