-- ===== src/Agent/Kubelet.antt =====
-- pkg/resource/client.go: the devices that the kubelet reports. Its answers are parameters.
use walkai_nos.Base.{Option, none, some, List, [], ◌∷◌, ◌++◌, String}
use walkai_nos.Mig.Profile.{ResourceName}
use walkai_nos.Device.{Status, used, unknown}
use walkai_nos.Agent.Client.{Resource}

-- ContainerDevices of the kubelet's API.
pub record ContainerDevices : Type 0 where
  pub resource_name : ResourceName
  pub device_ids : List String

-- The loop over the ids of one entry.
unfoldable pub resources_with : Status → ResourceName → List String → List Resource
resources_with status name [] = []
resources_with status name (id ∷ rest) =
    record { resource_name = name; device_id = id; status = status }
    ∷ resources_with status name rest

unfoldable pub resources_of_devices : Status → List ContainerDevices → List Resource
unfolding resources_with
resources_of_devices status [] = []
resources_of_devices status (d ∷ rest) =
    resources_with status d.resource_name d.device_ids ++ resources_of_devices status rest

-- A container is the list of its devices, and a pod the list of its containers.
unfoldable pub resources_of_containers : List (List ContainerDevices) → List Resource
unfolding resources_of_devices
resources_of_containers [] = []
resources_of_containers (devices ∷ rest) =
    resources_of_devices used devices ++ resources_of_containers rest

unfoldable pub resources_of_pods : List (List (List ContainerDevices)) → List Resource
unfolding resources_of_containers
resources_of_pods [] = []
resources_of_pods (containers ∷ rest) = resources_of_containers containers ++ resources_of_pods rest

-- `none` is an error.
unfoldable pub kubelet_allocatable_devices : Option (List ContainerDevices) → Option (List Resource)
unfolding resources_of_devices
kubelet_allocatable_devices response = elim response [
  | none ↦ none
  | some devices ↦ some (resources_of_devices unknown devices)
]

unfoldable pub kubelet_used_devices :
    Option (List (List (List ContainerDevices))) → Option (List Resource)
unfolding resources_of_pods
kubelet_used_devices response = elim response [
  | none ↦ none
  | some pods ↦ some (resources_of_pods pods)
]
