-- ===== src/Utils/Device.antt =====
-- mini_llmcache/utils/device.py: the choice of the accelerator. What transformers finds available,
-- and whether `torch.<device>.current_device()` works, are parameters.
use mini_llmcache.Base.{Bool, false, if◌then◌else◌, Option, none, some, Action, raise, value_error}

pub data DeviceType : Type 0 where
  npu cuda xpu mlu musa mps cpu : DeviceType

unfoldable pub get_device_type : (DeviceType → Bool) → DeviceType
get_device_type available =
    if available npu
    then npu
    else if available cuda
    then cuda
    else if available xpu
    then xpu
    else if available mlu
    then mlu
    else if available musa
    then musa
    else if available mps
    then mps
    else cpu

-- `none` is the RuntimeError.
unfoldable pub get_device_module : (DeviceType → Bool) → Option DeviceType
get_device_module available = elim (get_device_type available) [
  | cpu ↦ none
  | npu ↦ some npu
  | cuda ↦ some cuda
  | xpu ↦ some xpu
  | mlu ↦ some mlu
  | musa ↦ some musa
  | mps ↦ some mps
]

-- The exceptions that are caught give `false`.
unfoldable pub is_device_available : (DeviceType → Bool) → (DeviceType → Bool) → Bool
is_device_available available works = elim (get_device_module available) [
  | none ↦ false
  | some d ↦ works d
]

-- `set_device`, with `torch.<device>.set_device` as a parameter: a device of type "cpu", and one of a
-- type that is not in the list, raises the ValueError.
unfoldable pub set_device :
    {S : Type 0} → (DeviceType → Action S (Unit {0})) → Option DeviceType → Action S (Unit {0})
set_device torch_set none = raise value_error
set_device torch_set (some npu) = torch_set npu
set_device torch_set (some cuda) = torch_set cuda
set_device torch_set (some xpu) = torch_set xpu
set_device torch_set (some mlu) = torch_set mlu
set_device torch_set (some musa) = torch_set musa
set_device torch_set (some mps) = torch_set mps
set_device torch_set (some cpu) = raise value_error
