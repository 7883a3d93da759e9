-- ===== src/Lib.antt =====
-- Verification of walkai-nos: dynamic partitioning of NVIDIA GPUs into MIG devices on Kubernetes.
--
-- The program. A partitioner decides, for pods that wait for MIG devices, which geometry every GPU of
-- a node shall have, and writes it to the node's annotations; an agent on the node compares these with
-- the devices that exist, plans the deletions and creations that lead from one to the other, and
-- carries them out. Both stand on a model of a GPU: the devices of each MIG profile that are used and
-- free, and the geometries that its hardware model allows.
--
-- The files.
--   Base: the native numbers, Go's `int` as unbounded signed integers, since
--     quantities are counts of devices and sizes are gigabytes. The check of Slicing/Gpu that takes both
--     from annotations, Validate, has 64 bits and wraps. Equality tests are instances.
--   GoMap: Go's maps as association lists with distinct keys. A loop over a map is a recursion over
--     the list; Go leaves the order open, so theorems range over every list. Groups and Keyed hold
--     the loops that group a list by a key.
--   Util: UnorderedEqual, the sets of keys and Abs of pkg/util/util.go. Util/Batcher is
--     pkg/util/batcher.go and timer.go; Util/Batcher/Order has its loop, the timers and those that add
--     items and take batches as a step relation.
--   Text: prefixes, and the two regular expressions of pkg/constant/constants.go. Text/Decimal is
--     strconv's Atoi and Itoa, Text/Split is strings.Split at dashes.
--   Geometry: pkg/gpu/partitioning.go. Geometry/Compare states what is assumed of cmp.Equal of
--     go-cmp on maps: that it is true just when the maps have the same entries.
--   Mig/Gpu: pkg/gpu/mig/gpu.go, NewGPU, GetGeometry, CanApplyGeometry, ApplyGeometry, InitGeometry,
--     AllowsGeometry. A method that mutates the GPU returns the new one; an error is a value.
--   Mig/Update: UpdateGeometryFor and isBusySensitive3211Geometry, with the loop's best candidate
--     and what it provides as explicit state.
--   Mig/Devices: AddPod, ReleaseProfiles, HasFreeMigDevices. What a pod requests is the map that
--     GetRequestedProfiles returns, since it goes through the resource calculator.
--   Mig/KnownConfigs: the table of pkg/gpu/mig/known_configs.go and the models of pkg/gpu/model.go.
--   Mig/Profile: pkg/gpu/mig/profile.go and the names of pkg/gpu/mig/util.go.
--   Mig/Configs: ValidateConfigs and SetKnownGeometries of pkg/gpu/mig/known_configs.go, GroupByModel
--     of pkg/gpu/mig/allowed_geometries.go, and the partitioning kinds of pkg/gpu/partitioning.go.
--   Mig/Node: pkg/gpu/mig/node.go, what a node does with its GPUs; of the scheduler's node info, the
--     scalar resources. Mig/Node/Build is NewNode, with GetModel and GetCount of pkg/gpu/util.go;
--     Contents and Built are about the GPUs that it makes, Release and ReleaseAll about ReleaseProfiles.
--   Device, Annotation: pkg/gpu/device.go, pkg/resource/device.go, pkg/gpu/annotation.go,
--     pkg/gpu/mig/annotation.go. A status is one of the three values that the program gives it.
--     Annotation/Format is the text of the annotations, Annotation/Write the loops that write them
--     to a node, Annotation/Report AsStatusAnnotation of pkg/gpu/device.go, Annotation/Statuses what
--     is read of the annotations that a report writes, Annotation/AnyOrder what is read of a map
--     in another order.
--   Kube, Pods: the fields of the Kubernetes objects that the program uses; pkg/util/pod/pod.go,
--     ComputePodRequest of pkg/resource/resource.go and GetRequestedProfiles of pkg/gpu/mig/util.go.
--   Resources: Sum, Subtract and SubtractNonNegative of pkg/resource/resource.go, over the scheduler's
--     Resource, whose SetScalar is a parameter.
--   Agent/State, Agent/Plan: internal/controllers/migagent/plan, from the devices of a node and the
--     desired geometry to a plan of deletions and creations.
--   Agent/Shared, Agent/Client, Agent/Matching, Agent/Actuator, Agent/Actuate, Agent/Reporter:
--     shared.go of internal/controllers/migagent, pkg/gpu/mig/client.go, the comparisons of spec,
--     status and devices, the plan and its application in actuator.go, its Reconcile, and
--     reporter.go. Agent/Shared/Handshake is the interleaving of the two controllers as a step
--     relation.
--   Partitioner: internal/controllers/gpupartitioner/mig_controller.go and internal/partitioning.
--     Plan is the partitioning of a node and how it is written; Order the two sorts; Capacity what
--     the nodes offer and the plan for the waiting pods; Taints, Preemption and Reconcile the rest of
--     the controller, Nodes the node controller of node_controller.go.
--   Nvml: pkg/gpu/nvml/client.go, and the permutations of pkg/util/stat.go. Index finds the GPU of a
--     device and the GPUs with MIG mode; Visit goes through the instances; Deletion deletes them, and
--     Creation creates devices. Agent/Startup is initAgent of cmd/migagent/migagent.go, which deletes
--     the devices that are not in use; Agent/Kubelet is pkg/resource/client.go, and
--     Agent/DevicePlugin the restart of the device plugin in pkg/gpu/client.go.
--   Slicing: pkg/gpu/slicing, GPUs that are shared by slices of their memory (MPS): the names of
--     slices, the GPU, the node, and the client with internal/controllers/gpuagent/reporter.go.
--   Cluster: pkg/clusterinfo, what the exporter sends of GPUs and pods. Times are nanoseconds.
--   Mig/Examples, Mig/NodeExamples, Mig/BuildExamples, Agent/Examples, Agent/ActuatorExamples,
--     Agent/StartupExamples, Agent/DevicePlugin/Examples, Partitioner/Examples,
--     Partitioner/NodeExamples, Nvml/Examples, Slicing/Examples, Cluster/Examples,
--     Resources/Examples, Util/BatcherExamples: the theorems at concrete GPUs, nodes, pods, devices
--     and resources.
--
-- The Kubernetes API, the kubelet, NVML and the device plugin are parameters: records of answers
-- (Partitioner.Api.Api, Agent.Client.Clients, Nvml.Driver, Agent.DevicePlugin.PluginApi) that depend
-- on the calls made before, so that any behaviour in which an answer can change with each call is
-- covered. A function of a controller takes the calls up to then and returns its result with the calls
-- up to its end; an API error is an answer.
--
-- Every loop of the modelled code but one runs over a finite list or map and is a structural recursion,
-- so no fuel is used and the functions are total. The one is the wait for the device plugin, which
-- polls until its time is over. It has a number of rounds, and the theorem on it gives the number that
-- is enough, from the number of sleeps of five seconds behind which the time of the context is over.
-- Copies of a Go GPU share its maps, so the value that an operation returns for a GPU is what every
-- copy sees after it.
--
-- Of the NVML client the log has the calls that change the state of the driver, and the answers to the
-- others depend on that log. The generator of permutations is gonum's: that it gives lists of as many
-- indices, within bounds, is a hypothesis, IsGenerator, of the theorem that needs it.
--
-- Not modelled: what happens to the cluster behind the API; the goroutines and the lock, but for the
-- interleavings named above; configuration, metrics, logs, mocks and generated code; Abs and the
-- conversions of pkg/resource/resource.go, and the predicates on events of pkg/util/predicate.
pub mod Base
pub mod GoMap
pub mod Util
pub mod Text
pub mod Geometry
pub mod Mig
pub mod Device
pub mod Annotation
pub mod Kube
pub mod Pods
pub mod Resources
pub mod Partitioner
pub mod Nvml
pub mod Agent
pub mod Slicing
pub mod Cluster
