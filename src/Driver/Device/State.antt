-- ===== src/Driver/Device/State.antt =====
-- The state of the device over any sequence of operations.
use audioctl.Base.{◌≡◌, refl, Bool, true, false, List, [], ◌∷◌, ◌⊎◌, inl, inr, arith}
use audioctl.Base.Float.{Float32, f_zero, f_hundred, flt}
use audioctl.Base.Status.{OsStatus}
use audioctl.Driver.Device.{
  DeviceState, uninitialized, stopped, running, error, VirtualAudioDevice, virtual_device_start,
  virtual_device_stop, virtual_device_set_mute, virtual_device_set_volume,
}

abbrev pub is_running : DeviceState → Bool
is_running running = true
is_running _ = false

abbrev pub is_usable : DeviceState → Bool
is_usable running = true
is_usable stopped = true
is_usable _ = false

-- The atomic flag, the stream and the state agree, and the state is one that can be left.
pub record IsValid (d : VirtualAudioDevice) : Type 0 where
  pub usable : is_usable d.state ≡ true
  pub flag : d.device_is_running ≡ is_running d.state
  pub stream : d.output_stream.is_active ≡ is_running d.state
  pub not_below : flt d.volume_control_value f_zero ≡ false
  pub not_above : flt f_hundred d.volume_control_value ≡ false

pub running_cases : (s : DeviceState) → (s ≡ running) ⊎ (is_running s ≡ false)
running_cases running = inl refl
running_cases stopped = inr refl
running_cases uninitialized = inr refl
running_cases error = inr refl

-- The operations that change the device.
pub data Operation : Type 0 where
  start : Operation
  stop : Operation
  set_mute : Bool → Operation
  set_volume : Float32 → Operation

abbrev pub operate : Operation → VirtualAudioDevice → OsStatus × VirtualAudioDevice
operate start d = virtual_device_start d
operate stop d = virtual_device_stop d
operate (set_mute mute) d = virtual_device_set_mute d mute
operate (set_volume volume) d = virtual_device_set_volume d volume

state_cases : (s : DeviceState) → is_usable s ≡ true → (s ≡ running) ⊎ (s ≡ stopped)
state_cases running h = inl refl
state_cases stopped h = inr refl
state_cases uninitialized h = cc
state_cases error h = cc

operate-IsValid : (op : Operation) (d : VirtualAudioDevice) → IsValid d → IsValid (operate op d).1
unfolding virtual_device_start virtual_device_stop virtual_device_set_mute virtual_device_set_volume
operate-IsValid start d v = elim (state_cases d.state v.usable) [
  | inl on ↦ ground arith
  | inr off ↦ ground arith
]
operate-IsValid stop d v = elim (state_cases d.state v.usable) [
  | inl on ↦ ground arith
  | inr off ↦ ground arith
]
operate-IsValid (set_mute mute) d v = ground arith
operate-IsValid (set_volume volume) d v = ground arith

-- The device after a list of operations.
pub operate_all : List Operation → VirtualAudioDevice → VirtualAudioDevice
operate_all [] d = d
operate_all (op ∷ ops) d = operate_all ops (operate op d).1

-- No sequence of starts, stops, mutes and volumes breaks a valid device: the state is stopped or
-- running, the atomic flag and the stream agree with it, and the volume is neither below 0 nor
-- above 100.
pub operate_all-IsValid :
    (ops : List Operation) (d : VirtualAudioDevice) → IsValid d → IsValid (operate_all ops d)
unfolding operate_all
operate_all-IsValid [] d v = v
operate_all-IsValid (op ∷ ops) d v =
    operate_all-IsValid ops (operate op d).1 (operate-IsValid op d v)
