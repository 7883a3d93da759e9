-- ===== src/Agent/DevicePlugin/Examples.antt =====
-- Tests of the restart of the device plugin.
use walkai_nos.Base.{
  ◌≡◌, refl, true, false, none, some, Option, List, [], ◌∷◌, String, ◌⊎◌, arith, leb,
}
use walkai_nos.Kube.{Pod}
use walkai_nos.Agent.DevicePlugin.{
  PluginCalls, PluginApi, listed, deleted, slept, pod_recreated, exactly_one, wait_until_running,
  restart,
}
use walkai_nos.Agent.DevicePlugin.Waiting.{sleeps, EndsBehind, SeenAgain, restart-returns}

abbrev plugin_pod : String → String → Pod
plugin_pod name phase = record {
  namespace = "nos";
  name = name;
  creation_timestamp = 0;
  is_deleted = false;
  owners = [];
  node_name = "node";
  priority = none;
  containers = [];
  init_containers = [];
  phase = phase;
  nominated_node_name = "";
  conditions = [];
}

-- The new pod is pending at first and runs behind one sleep.
abbrev plugin_pods : PluginCalls → Option (List Pod)
plugin_pods [] = some (plugin_pod "old" "Running" ∷ [])
plugin_pods (deleted p ∷ t) = some (plugin_pod "new" "Pending" ∷ [])
plugin_pods (slept ∷ t) = some (plugin_pod "new" "Running" ∷ [])
plugin_pods (listed ∷ t) = none

-- The pods of a plugin that is never created again.
abbrev no_new_pods : PluginCalls → Option (List Pod)
no_new_pods [] = some (plugin_pod "old" "Running" ∷ [])
no_new_pods (c ∷ t) = some []

abbrev plugin : (PluginCalls → Option (List Pod)) → PluginApi
plugin pods = record { list_pods = pods; delete_pod = λ p t. true; is_over = λ t. leb 2 (sleeps t) }

ends_behind : (pods : PluginCalls → Option (List Pod)) → EndsBehind (plugin pods) 2 []
ends_behind pods u h = ground arith

runs_again :
    restart (plugin plugin_pods) 3 []
    ≡ (some true, listed ∷ slept ∷ listed ∷ deleted (plugin_pod "old" "Running") ∷ listed ∷ [])
unfolding restart pod_recreated exactly_one wait_until_running
runs_again = refl

times_out : restart (plugin no_new_pods) 3 [] ≡ (
  some false,
  listed ∷ slept ∷ listed ∷ slept ∷ listed ∷ deleted (plugin_pod "old" "Running") ∷ listed ∷ [],
)
unfolding restart pod_recreated exactly_one wait_until_running
times_out = refl

restart-returns_example :
    ((restart (plugin plugin_pods) 3 []).0 ≡ some false)
    ⊎ (((restart (plugin plugin_pods) 3 []).0 ≡ some true)
        × (old : Pod) × ((plugin plugin_pods).list_pods [] ≡ some (old ∷ []))
        × ((plugin plugin_pods).delete_pod old (listed ∷ []) ≡ true)
        × SeenAgain (plugin plugin_pods) old.name (restart (plugin plugin_pods) 3 []).1)
restart-returns_example = restart-returns (plugin plugin_pods) 2 [] (ends_behind plugin_pods)
