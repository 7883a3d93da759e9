-- ===== src/Agent/DevicePlugin.antt =====
-- pkg/gpu/client.go: the restart of the NVIDIA device plugin on a node. The calls are kept newest first.
pub mod Waiting
mod Examples
use walkai_nos.Base.{
  Bool, true, false, Option, none, some, List, [], ◌∷◌, String, String_eq, ℕ, zero, suc, ◌==◌,
  if◌then◌else◌,
}
use walkai_nos.Kube.{Pod}

pub data PluginCall : Type 0 where
  listed : PluginCall
  deleted : Pod → PluginCall
  slept : PluginCall

abbrev pub PluginCalls : Type 0
PluginCalls = List PluginCall

-- The plugin's pods on the node, or an error; whether a deletion succeeds; and whether the time that
-- WithTimeout gives is over. Each answer may depend on all calls before.
pub record PluginApi : Type 0 where
  pub list_pods : PluginCalls → Option (List Pod)
  pub delete_pod : Pod → PluginCalls → Bool
  pub is_over : PluginCalls → Bool

unfoldable pod_recreated : String → List Pod → Bool
pod_recreated old_pod_name [] = false
pod_recreated old_pod_name (p ∷ []) =
    if p.name == old_pod_name then false else if p.is_deleted then false else p.phase == "Running"
pod_recreated old_pod_name (p ∷ q ∷ rest) = false

unfoldable exactly_one : List Pod → Option Pod
exactly_one [] = none
exactly_one (p ∷ []) = some p
exactly_one (p ∷ q ∷ rest) = none

module _ (api : PluginApi) where
  -- Whether the pod runs again, and false for an error; `none` if the rounds do not suffice.
  unfoldable wait_until_running : ℕ → String → PluginCalls → Option Bool × PluginCalls
  unfolding pod_recreated
  wait_until_running zero old_pod_name t = (none, t)
  wait_until_running (suc rounds) old_pod_name t =
      let later = wait_until_running rounds old_pod_name (slept ∷ listed ∷ t) in
      elim (api.list_pods t) [
        | none ↦ (some false, listed ∷ t)
        | some pods ↦
            if pod_recreated old_pod_name pods
            then (some true, listed ∷ t)
            else if api.is_over (listed ∷ t)
            then (some false, listed ∷ t)
            else later
      ]

  unfoldable restart : ℕ → PluginCalls → Option Bool × PluginCalls
  unfolding exactly_one wait_until_running
  restart rounds t = elim (api.list_pods t) [
    | none ↦ (some false, listed ∷ t)
    | some pods ↦ elim (exactly_one pods) [
      | none ↦ (some false, listed ∷ t)
      | some p ↦
          let waited = wait_until_running rounds p.name (deleted p ∷ listed ∷ t) in
          if api.delete_pod p (listed ∷ t) then waited else (some false, deleted p ∷ listed ∷ t)
    ]
  ]
