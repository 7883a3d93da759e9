-- ===== src/Nvml.antt =====
-- pkg/gpu/nvml/client.go over NVIDIA's libraries go-nvml and go-nvlib, which are a parameter: their answers
-- depend on the calls before that change the state of the driver.
pub mod Index
pub mod Visit
pub mod Deletion
pub mod Permutation
pub mod Creation
mod Examples
use walkai_nos.Base.{Bool, Option, List, [], ◌∷◌, ◌++◌, ℕ, ℤ, String}
use walkai_nos.Geometry.{ProfileName}

-- The return codes that the program tells apart, but for SUCCESS.
pub data Code : Type 0 where
  code_not_found code_not_supported code_invalid_argument code_other : Code

pub data Answer (A : Type 0) : Type 0 where
  success : A → Answer A
  failed : Code → Answer A

-- The handles of a device, a GPU instance and a compute instance, by a number each.
pub data DeviceHandle : Type 0 where
  device_handle : ℕ → DeviceHandle

pub data GpuInstance : Type 0 where
  gpu_instance : ℕ → GpuInstance

pub data ComputeInstance : Type 0 where
  compute_instance : ℕ → ComputeInstance

-- What MigProfile.GetInfo gives.
pub record MigProfile : Type 0 where
  pub gi_profile_id : ℕ
  pub ci_profile_id : ℕ
  pub ci_eng_profile_id : ℕ

-- The profiles that the library describes are passed back to it as they are.
pub record GpuProfileInfo : Type 0 where
  pub gpu_profile : ℕ

pub record ComputeProfileInfo : Type 0 where
  pub compute_profile : ℕ
  pub engine_profile : ℕ

-- The calls that change the state of the driver, with what they answer.
pub data NvmlCall : Type 0 where
  init : Bool → NvmlCall
  shutdown : NvmlCall
  created_gi : GpuInstance → NvmlCall
  created_ci : ComputeInstance → NvmlCall
  failed_to_create : NvmlCall
  destroyed_gi : GpuInstance → NvmlCall
  destroyed_ci : ComputeInstance → NvmlCall
  failed_to_destroy : NvmlCall

abbrev pub Log : Type 0
Log = List NvmlCall

pub record Driver : Type 0 where
  -- Init; `false` is an error.
  pub initialized : Log → Bool
  -- What VisitDevices and VisitMigDevices visit, in this order; `none` where they fail themselves. A MIG
  -- device is visited with the index of its GPU.
  pub devices : Log → List (Option (ℤ × DeviceHandle))
  pub mig_devices : Log → List (Option (ℤ × DeviceHandle))
  -- GetDevices; `none` is an error.
  pub all_devices : Log → Option (List DeviceHandle)
  pub uuid : Log → DeviceHandle → Answer String
  pub index_of : Log → DeviceHandle → Answer ℤ
  pub handle_by_uuid : Log → String → Answer DeviceHandle
  pub handle_by_index : Log → ℤ → Answer DeviceHandle
  -- NewDevice, IsMigCapable and IsMigEnabled of go-nvlib; `none` is an error.
  pub new_device : Log → DeviceHandle → Option DeviceHandle
  pub is_mig_capable : Log → DeviceHandle → Option Bool
  pub is_mig_enabled : Log → DeviceHandle → Option Bool
  pub is_mig_device_handle : Log → DeviceHandle → Answer Bool
  pub gpu_instance_id : Log → DeviceHandle → Answer ℕ
  pub parent : Log → DeviceHandle → Answer DeviceHandle
  pub gpu_instance_by_id : Log → DeviceHandle → ℕ → Answer GpuInstance
  pub gpu_profile_info : Log → DeviceHandle → ℕ → Answer GpuProfileInfo
  pub gpu_instances : Log → DeviceHandle → GpuProfileInfo → Answer (List GpuInstance)
  pub compute_profile_info : Log → GpuInstance → ℕ → ℕ → Answer ComputeProfileInfo
  pub compute_instances : Log → GpuInstance → ComputeProfileInfo → Answer (List ComputeInstance)
  -- GetInfo of an instance, and the device that it names.
  pub gi_device : Log → GpuInstance → Answer DeviceHandle
  pub ci_device : Log → ComputeInstance → Answer DeviceHandle
  pub create_gi : Log → DeviceHandle → GpuProfileInfo → Answer GpuInstance
  pub create_ci : Log → GpuInstance → ComputeProfileInfo → Answer ComputeInstance
  -- Destroy; `none` is SUCCESS.
  pub destroy_gi : Log → GpuInstance → Option Code
  pub destroy_ci : Log → ComputeInstance → Option Code
  -- ParseMigProfile; `none` is an error.
  pub parse_mig_profile : ProfileName → Option MigProfile
  -- The constants GPU_INSTANCE_PROFILE_COUNT, COMPUTE_INSTANCE_PROFILE_COUNT and
  -- COMPUTE_INSTANCE_ENGINE_PROFILE_COUNT.
  pub gpu_instance_profile_count : ℕ
  pub compute_instance_profile_count : ℕ
  pub compute_instance_engine_profile_count : ℕ
