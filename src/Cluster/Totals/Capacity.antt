-- ===== src/Cluster/Totals/Capacity.antt =====
-- The inventory by capacity adds up: the devices of a profile are allocated or available.
use walkai_nos.Base.{
  ◌≡◌, refl, subst, ap, ◌∙◌, inl, inr, Option, none, some, List, [], ◌∷◌, String, String_eq, ℤ,
  ◌+ℤ◌, ◌≤ℤ◌, lt_ℤ, lt_ℤ→lt, lt_ℤ→ge, ◌==◌, ==_refl, if◌then◌else◌, All, All-map, Bool-cases,
  Option-cases, arith, int_laws, length, nat_eq,
}
use walkai_nos.GoMap.{GoMap, get?, put, amount, Distinct, add_at}
use walkai_nos.GoMap.Laws.{get?-put}
use walkai_nos.GoMap.Quantities.{add_at-Distinct}
use walkai_nos.Geometry.{ProfileName}
use walkai_nos.Kube.{ResourceList}
use walkai_nos.Mig.Profile.{extract_profile_name}
use walkai_nos.Pods.{Quota}
use walkai_nos.Partitioner.Order.{sort_stable}
use walkai_nos.Partitioner.Order.Sorted.{sort_stable-All}
use walkai_nos.Cluster.Times.{ClusterPod}
use walkai_nos.Cluster.Totals.{
  ClusterNode, GpuInventory, GpuTotals, totals_at, text_before, profile_keys, inventory_of,
  gpu_totals_to_inventory, add_capacity, capacity_totals, aggregate_pod_requests, totals_of,
  capacity_result, build_gpu_inventory_from_capacity,
}

add_capacity-Distinct :
    (l : ResourceList) (m : GoMap ProfileName ℤ) → Distinct m → Distinct (add_capacity l m)
unfolding add_capacity
add_capacity-Distinct [] m h = h
add_capacity-Distinct ((name, q) ∷ rest) m h = elim (Option-cases (extract_profile_name name)) [
  | inl other ↦ rw (add_capacity, other) (add_capacity-Distinct rest m h)
  | inr (p, e) ↦
      rw (add_capacity, e) (add_capacity-Distinct rest (add_at p q m) (add_at-Distinct p q m h))
]

capacity_totals-Distinct :
    (nodes : List ClusterNode) (m : GoMap ProfileName ℤ)
    → Distinct m
    → Distinct (capacity_totals nodes m)
unfolding capacity_totals
capacity_totals-Distinct [] m h = h
capacity_totals-Distinct (n ∷ rest) m h =
    capacity_totals-Distinct rest (add_capacity n.capacity m) (add_capacity-Distinct n.capacity m h)

-- What the entry of a profile is made from.
abbrev result_at :
    GoMap ProfileName ℤ → ProfileName → Option ℤ → Option GpuTotals → Option GpuTotals
result_at allocated k none before = before
result_at allocated k (some total) before = some (totals_of (amount k allocated) total)

get?-capacity_result :
    (allocated totals : GoMap ProfileName ℤ) (result : GoMap String GpuTotals) (k : String)
    → Distinct totals
    → get? k (capacity_result allocated totals result)
      ≡ result_at allocated k (get? k totals) (get? k result)
unfolding capacity_result get?
get?-capacity_result allocated [] result k h = refl
get?-capacity_result allocated ((p, total) ∷ rest) result k h =
    let entry = totals_of (amount p allocated) total in
    let later = get?-capacity_result allocated rest (put p entry result) k h.1 in
    let after = put p entry result in
    let read = get?-put p k entry result in
    elim (Bool-cases (p == k)) [
      | inl hit ↦
          let same = (String_eq.same_iff p k).0 hit in
          let none_later : get? k rest ≡ none = subst (λ j. get? j rest ≡ none) same h.0 in
          let chosen : (if p == k then some entry else get? k result) ≡ some entry = rw hit refl in
          rw hit (
            later
            ∙ ap (λ o. result_at allocated k o (get? k after)) none_later
            ∙ read
            ∙ chosen
            ∙ ap (λ j. some (totals_of (amount j allocated) total)) same)
      | inr miss ↦
          let chosen : (if p == k then some entry else get? k result) ≡ get? k result =
            rw miss refl in
          rw miss (later ∙ ap (result_at allocated k (get? k rest)) (read ∙ chosen))
    ]

-- The key has an entry.
abbrev IsKey : GoMap String GpuTotals → String → Type 0
IsKey m k = (v : GpuTotals) × (get? k m ≡ some v)

IsKey-cons :
    (p k : String) (v : GpuTotals) (m : GoMap String GpuTotals) → IsKey m k → IsKey ((p, v) ∷ m) k
unfolding get?
IsKey-cons p k v m (w, e) = elim (Bool-cases (p == k)) [
  | inl hit ↦ (v, rw hit refl)
  | inr miss ↦ (w, rw miss e)
]

IsKey-head : (p : String) (v : GpuTotals) (m : GoMap String GpuTotals) → IsKey ((p, v) ∷ m) p
unfolding get?
IsKey-head p v m = (v, rw (==_refl p) refl)

profile_keys-IsKey : (m : GoMap String GpuTotals) → All (IsKey m) (profile_keys m)
unfolding profile_keys
profile_keys-IsKey [] = tt
profile_keys-IsKey ((p, v) ∷ m) =
    let others =
      All-map (λ k (key : IsKey m k). IsKey-cons p k v m key) (profile_keys m)
        (profile_keys-IsKey m) in
    elim (Bool-cases (p == "")) [
      | inl empty ↦ rw empty others
      | inr named ↦ rw named (IsKey-head p v m, others)
    ]

-- The entry of a profile of a capacity: no more are allocated than there are or than are asked for, and
-- those that are not allocated are available.
pub record AddsUp (allocated totals : GoMap ProfileName ℤ) (e : GpuInventory) : Type 0 where
  pub total : ℤ
  pub is_total : get? e.profile totals ≡ some total
  pub at_most_total : e.allocated ≤ℤ total
  pub at_most_asked : e.allocated ≤ℤ amount e.profile allocated
  pub others_available : e.allocated +ℤ e.available ≡ total

limited :
    (asked total : ℤ)
    → ((totals_of asked total).allocated ≤ℤ total)
      × ((totals_of asked total).allocated ≤ℤ asked)
      × ((totals_of asked total).allocated +ℤ (totals_of asked total).available ≡ total)
limited asked total = elim (Bool-cases (lt_ℤ total asked)) [
  | inl more ↦ rw more (omega arith, omega (arith, lt_ℤ→lt total asked more), omega int_laws)
  | inr fewer ↦ rw fewer (omega (arith, lt_ℤ→ge total asked fewer), omega arith, omega int_laws)
]

AddsUp-of_key :
    (allocated totals : GoMap ProfileName ℤ) (k : String)
    → Distinct totals
    → IsKey (capacity_result allocated totals []) k
    → (o : Option ℤ) → get? k totals ≡ o
    → AddsUp allocated totals (record {
      profile = k;
      allocated = (totals_at k (capacity_result allocated totals [])).allocated;
      available = (totals_at k (capacity_result allocated totals [])).available;
    })
unfolding totals_at get?
AddsUp-of_key allocated totals k d (v, e) none missing = absurd (
    cc (
      e,
      get?-capacity_result allocated totals [] k d ∙ ap (λ o. result_at allocated k o none) missing,
    ))
AddsUp-of_key allocated totals k d (v, e) (some total) found =
    let entry : get? k (capacity_result allocated totals [])
        ≡ some (totals_of (amount k allocated) total) =
      get?-capacity_result allocated totals [] k d ∙ ap (λ o. result_at allocated k o none) found in
    let (a, b, c) = limited (amount k allocated) total in
    record {
      total = total;
      is_total = found;
      at_most_total = rw (totals_at, entry) a;
      at_most_asked = rw (totals_at, entry) b;
      others_available = rw (totals_at, entry) c;
    }

inventory-AddsUp :
    (allocated totals : GoMap ProfileName ℤ) (l : List String)
    → Distinct totals
    → All (IsKey (capacity_result allocated totals [])) l
    → All (AddsUp allocated totals) (inventory_of (capacity_result allocated totals []) l)
unfolding inventory_of
inventory-AddsUp allocated totals [] d h = tt
inventory-AddsUp allocated totals (k ∷ rest) d h = (
  AddsUp-of_key allocated totals k d h.0 (get? k totals) refl,
  inventory-AddsUp allocated totals rest d h.1,
)

-- Each entry of the inventory by capacity is of a profile that has a capacity. No more devices of it are
-- allocated than its capacity or than the pods ask for, and the allocated and the available devices
-- are together its capacity.
pub capacity_inventory-AddsUp :
    (quota : Quota) (nodes : List ClusterNode) (pods : List ClusterPod)
    → All
        (AddsUp (aggregate_pod_requests quota pods []) (capacity_totals nodes []))
        (build_gpu_inventory_from_capacity quota nodes pods)
unfolding build_gpu_inventory_from_capacity gpu_totals_to_inventory
capacity_inventory-AddsUp quota nodes pods =
    let totals = capacity_totals nodes [] in
    let allocated = aggregate_pod_requests quota pods [] in
    let result = capacity_result allocated totals [] in
    elim (Bool-cases (nat_eq (length totals) 0)) [
      | inl nothing ↦ rw (build_gpu_inventory_from_capacity, nothing) tt
      | inr something ↦
          rw (build_gpu_inventory_from_capacity, something)
            (inventory-AddsUp allocated totals (sort_stable text_before (profile_keys result))
              (capacity_totals-Distinct nodes [] tt)
              (sort_stable-All text_before (IsKey result) (profile_keys result)
                (profile_keys-IsKey result)))
    ]
