-- ===== src/Driver/Device/Memory/Balance.antt =====
-- What the creation and the destruction of the device leave held.
use audioctl.Base.{
  ◌≡◌, refl, Bool, true, false, not, Option, none, some, List, [], ◌∷◌, ◌++◌, if◌then◌else◌, ◌⊎◌,
  inl, inr, if_either,
}
use audioctl.Base.Status.{OsStatus, no_err, mem_full_error}
use audioctl.Driver.Device.{stopped, VirtualAudioDevice}
use audioctl.Driver.Device.State.{IsValid}
use audioctl.Driver.Device.Memory.{
  Answers, Resource, device_memory, device_uid, device_name, state_mutex, buffer_list_memory,
  sample_memory, Step, acquire, release, virtual_device_destroy, new_device, partial, pointers,
  first_steps, virtual_device_create,
}

-- What is held.
pub record Held : Type 0 where
  pub memory : Bool
  pub uid : Bool
  pub name : Bool
  pub mutex : Bool
  pub list : Bool
  pub samples : Bool

abbrev pub nothing : Held
nothing = record {
  memory = false;
  uid = false;
  name = false;
  mutex = false;
  list = false;
  samples = false;
}

abbrev holds : Resource → Held → Bool
holds device_memory h = h.memory
holds device_uid h = h.uid
holds device_name h = h.name
holds state_mutex h = h.mutex
holds buffer_list_memory h = h.list
holds sample_memory h = h.samples

abbrev mark : Resource → Bool → Held → Held
mark device_memory b h = record h { memory = b }
mark device_uid b h = record h { uid = b }
mark device_name b h = record h { name = b }
mark state_mutex b h = record h { mutex = b }
mark buffer_list_memory b h = record h { list = b }
mark sample_memory b h = record h { samples = b }

-- What is held after the steps; `none` if one of them frees what is not held or allocates what is.
unfoldable pub after : List Step → Held → Option Held
after [] h = some h
after (acquire r ∷ steps) h =
    let rest = after steps (mark r true h) in if holds r h then none else rest
after (release r ∷ steps) h =
    let rest = after steps (mark r false h) in if holds r h then rest else none

-- What a whole device holds.
abbrev complete : Bool → Bool → Held
complete uid name = record {
  memory = true;
  uid = uid;
  name = name;
  mutex = true;
  list = true;
  samples = true;
}

abbrev pub whole : Answers → Held
whole a = complete a.uid a.name

-- What holds whichever of the two strings are given.
each_string {κ} :
    (P : Bool → Bool → Type κ) (uid name : Bool)
    → P true true × P true false × P false true × P false false
    → P uid name
each_string P true true p = p.0
each_string P true false p = p.1
each_string P false true p = p.2
each_string P false false p = p.3

failed_steps :
    (uid name : Bool)
    → (after (first_steps uid name ++ virtual_device_destroy (partial uid name false false)) nothing
        ≡ some nothing)
      × (after
            (first_steps uid name
              ++ (acquire buffer_list_memory
                  ∷ virtual_device_destroy (partial uid name true false)))
            nothing
          ≡ some nothing)
unfolding virtual_device_destroy after
failed_steps true true = (refl, refl)
failed_steps true false = (refl, refl)
failed_steps false true = (refl, refl)
failed_steps false false = (refl, refl)

whole_steps :
    (uid name : Bool)
    → after
        (first_steps uid name ++ (acquire buffer_list_memory ∷ acquire sample_memory ∷ []))
        nothing
      ≡ some (complete uid name)
unfolding after
whole_steps true true = refl
whole_steps true false = refl
whole_steps false true = refl
whole_steps false false = refl

new_device-IsValid : (a : Answers) → IsValid (new_device a)
new_device-IsValid a = record {
  usable = refl;
  flag = refl;
  stream = refl;
  not_below = refl;
  not_above = refl;
}

-- A valid, stopped device, and all that it has allocated.
abbrev pub Succeeded : Answers → OsStatus × Option VirtualAudioDevice × List Step → Type 0
Succeeded a (status, device, steps) =
    (d : VirtualAudioDevice) × (status ≡ no_err)
    × (device ≡ some d)
    × IsValid d
    × (d.state ≡ stopped)
    × (after steps nothing ≡ some (whole a))

-- No device, and nothing held.
abbrev pub Failed : OsStatus × Option VirtualAudioDevice × List Step → Type 0
Failed (status, device, steps) =
    (status ≡ mem_full_error) × (device ≡ none) × (after steps nothing ≡ some nothing)

-- A creation either gives a valid, stopped device and holds all that it has allocated, or reports
-- kAudio_MemFullError, gives none and has freed everything, nothing of it twice.
pub create_all_or_nothing :
    (a : Answers) → Succeeded a (virtual_device_create a) ⊎ Failed (virtual_device_create a)
unfolding virtual_device_create after
create_all_or_nothing a =
    let (no_list, no_samples) = failed_steps a.uid a.name in
    if_either P (not a.device) _ _ (inr (refl, refl, refl)) (
      if_either P (not a.buffer_list) _ _ (inr (refl, refl, no_list)) (
        if_either P (not a.samples) _ _ (inr (refl, refl, no_samples))
          (inl (new_device a, refl, refl, new_device-IsValid a, refl, whole_steps a.uid a.name))))
  where
    P : OsStatus × Option VirtualAudioDevice × List Step → Type 0
    P out = Succeeded a out ⊎ Failed out

-- The destruction of a whole device frees everything that it holds, and nothing twice.
pub destroy_releases :
    (a : Answers) → after (virtual_device_destroy (pointers a true true)) (whole a) ≡ some nothing
unfolding virtual_device_destroy after
destroy_releases a =
    each_string
      (λ uid name.
        after (virtual_device_destroy (partial uid name true true)) (complete uid name)
        ≡ some nothing)
      a.uid a.name (refl, refl, refl, refl)
