-- ===== src/Driver/Device/Memory.antt =====
-- The creation and the destruction of the device, and what they allocate and free.
pub mod Balance
use audioctl.Base.{
  ℕ, ◌*◌, ◌≡◌, refl, Bool, true, false, not, Option, none, some, List, [], ◌∷◌, ◌++◌, replicate,
  if◌then◌else◌, ◌⊎◌, inl, inr, if_either,
}
use audioctl.Base.Float.{f_zero, f_hundred}
use audioctl.Base.Status.{OsStatus, no_err, mem_full_error}
use audioctl.Driver.Device.{stopped, VirtualAudioDevice}
use audioctl.Driver.Device.State.{IsValid}

-- The answers of the system to one creation: two random ids, and which of the allocations and of
-- the two strings are given.
pub record Answers : Type 0 where
  pub device_id : ℕ
  pub stream_id : ℕ
  pub device : Bool
  pub uid : Bool
  pub name : Bool
  pub buffer_list : Bool
  pub samples : Bool

-- What a device owns.
pub data Resource : Type 0 where
  device_memory : Resource
  device_uid : Resource
  device_name : Resource
  state_mutex : Resource
  buffer_list_memory : Resource
  sample_memory : Resource

pub data Step : Type 0 where
  acquire : Resource → Step
  release : Resource → Step

abbrev pub when : Bool → Step → List Step
when true s = s ∷ []
when false s = []

-- The fields that are pointers, as whether they are not null.
pub record Pointers : Type 0 where
  pub uid : Bool
  pub name : Bool
  pub buffer_list : Bool
  pub samples : Bool

-- The frees of `virtual_device_destroy`; its call of `virtual_device_stop` frees nothing.
unfoldable pub virtual_device_destroy : Pointers → List Step
virtual_device_destroy p =
    (if p.buffer_list
      then when p.samples (release sample_memory) ++ (release buffer_list_memory ∷ [])
      else [])
    ++ (when p.uid (release device_uid)
        ++ (when p.name (release device_name)
            ++ (release state_mutex ∷ release device_memory ∷ [])))

abbrev buffer_frame_size : ℕ
buffer_frame_size = 512

abbrev pub new_device : Answers → VirtualAudioDevice
new_device a = record {
  device_id = a.device_id;
  state = stopped;
  device_is_running = false;
  volume_control_value = f_hundred;
  mute_state = false;
  output_stream = record {
    stream_id = a.stream_id;
    is_active = false;
    samples = some (replicate (buffer_frame_size * 2) f_zero);
    buffer_frame_size = buffer_frame_size;
  };
}

abbrev pub partial : Bool → Bool → Bool → Bool → Pointers
partial uid name list samples = record {
  uid = uid;
  name = name;
  buffer_list = list;
  samples = samples;
}

abbrev pub pointers : Answers → Bool → Bool → Pointers
pointers a list samples = partial a.uid a.name list samples

abbrev pub first_steps : Bool → Bool → List Step
first_steps uid name =
    (acquire device_memory ∷ [])
    ++ (when uid (acquire device_uid)
        ++ (when name (acquire device_name) ++ (acquire state_mutex ∷ [])))

-- A caller gives a place for the device.
unfoldable pub virtual_device_create : Answers → OsStatus × Option VirtualAudioDevice × List Step
unfolding virtual_device_destroy
virtual_device_create a =
    if not a.device
    then (mem_full_error, none, [])
    else if not a.buffer_list
    then (
      mem_full_error,
      none,
      first_steps a.uid a.name ++ virtual_device_destroy (pointers a false false),
    )
    else if not a.samples
    then (
      mem_full_error,
      none,
      first_steps a.uid a.name
          ++ (acquire buffer_list_memory ∷ virtual_device_destroy (pointers a true false)),
    )
    else (
      no_err,
      some (new_device a),
      first_steps a.uid a.name ++ (acquire buffer_list_memory ∷ acquire sample_memory ∷ []),
    )
