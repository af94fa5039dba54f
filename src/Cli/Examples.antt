-- ===== src/Cli/Examples.antt =====
-- The theorems of the command line at concrete inputs, and runs of its code.
use audioctl.Base.{
  ◌⊎◌, ℕ, ◌≡◌, refl, true, false, none, some, List, [], ◌∷◌, ◌==◌, if◌then◌else◌, arith,
}
use audioctl.Base.Decimal.{print_int}
use audioctl.Base.Bytes.{Bytes, codes}
use audioctl.Manager.{begins_with}
use audioctl.Cli.{same_string}
use audioctl.Cli.Options.{
  parse_options, handle_arguments, handle_argument, parse_short_options, parse_short_option,
  parse_long_option, validate_option_combination, no_options, input_output_type,
  find_running_device,
}
use audioctl.Cli.Reference.{accepted, meaning, arguments_flags, parse_options_lem}
use audioctl.Base.Float.{Float32, f_one, f_hundred}
use audioctl.Base.Status.{no_err}
use audioctl.Manager.Binding.{IsOneLine, save_bound_physical_device, get_bound_physical_device_uid}
use audioctl.Devices.{Hardware, has_uid}
use audioctl.Devices.Find.{listed}
use audioctl.Cli.Set.{Setting, parse_volume, handle_volume_set, set_output_reaches_bound}
use audioctl.Cli.Switch.{
  SwitchCalls, kill_router, spawn_router, activate_device, handle_device_switch,
  handle_device_switch_binds,
}
use audioctl.Cli.Virtual.{UseCalls}
use audioctl.Cli.Route.{main, route, unknown, router_arguments}

-- `audioctl list --active -i`
abbrev arguments : List Bytes
arguments = codes "--active" ∷ codes "-i" ∷ []

parse_options_lem_example : accepted (parse_options arguments) ≡ meaning (arguments_flags arguments)
parse_options_lem_example = parse_options_lem arguments

options_run :
    parse_options arguments
    ≡ (true, record no_options { show_only_active = true; show_only_input = true })
unfolding parse_options handle_arguments handle_argument parse_short_options parse_short_option
    parse_long_option validate_option_combination same_string
options_run = refl

-- The usage names a command that `main` does not know.
agg_status_unknown : main (codes "agg-status" ∷ []) ≡ unknown
unfolding main same_string begins_with
agg_status_unknown = refl

-- A running device for input and output is not found.
headset_not_found :
    find_running_device false
      (record { device_id = 4; device_type = input_output_type; is_running = true } ∷ [])
    ≡ none
unfolding find_running_device
headset_not_found = refl

-- The virtual device is the default output, and the binding is to be changed to "Spk".
abbrev speaker : Bytes
speaker = codes "Spk"

abbrev calls : SwitchCalls
calls = record {
  virtual_active = true;
  writable = true;
  info = λ d. no_err;
  virtual_transport = λ d. false;
  device_uid = λ d. if d == 117 then some speaker else none;
  path_known = true;
  router_started = true;
  active = λ d. no_err;
}

speaker-IsOneLine : IsOneLine speaker
unfolding IsOneLine
speaker-IsOneLine = (refl, refl, (refl, refl, (refl, refl, tt)))

handle_device_switch_binds_example :
    let (status, file', deeds) = handle_device_switch calls (print_int 117 [] ∷ []) none in
    (status ≡ 0)
    × (main (router_arguments speaker) ≡ route speaker)
    × (((calls.virtual_active ≡ true)
          × (get_bound_physical_device_uid 256 file' ≡ some speaker)
          × (deeds ≡ kill_router ∷ kill_router ∷ spawn_router (router_arguments speaker) ∷ []))
        ⊎ ((calls.virtual_active ≡ false) × (file' ≡ none) × (deeds ≡ activate_device 117 ∷ [])))
handle_device_switch_binds_example =
    handle_device_switch_binds calls 117 83 (112 ∷ 107 ∷ []) none (omega arith) (omega arith) refl
      refl refl refl refl refl refl speaker-IsOneLine (omega arith)

-- Device 5 is the speaker.
abbrev hardware : Hardware
hardware = record {
  devices = some (5 ∷ []);
  uid_of = λ d. if d == 5 then some speaker else none;
  is_settable = λ d scope element. true;
  volume_of = λ d scope element. some f_one;
  decibels_of = λ d scope. none;
  channels_of = λ d scope. 2 ∷ [];
  default_of = λ scope. some 9;
  is_alive = λ d. true;
  runs_in = λ d scope. false;
  processing = λ d scope. false;
  bound_uid = some speaker;
}

abbrev setting : Setting
setting = record {
  virtual_active = true;
  binding_file = some speaker;
  hardware = hardware;
  devices = none;
}

only_speaker : (e : ℕ) → has_uid hardware speaker e ≡ true → e ≡ 5
unfolding same_string
only_speaker e h = ground (arith, h)

-- Every text is read as 100.
abbrev full : Bytes → Float32 × Bytes
full text = (f_hundred, [])

set_output_reaches_bound_example :
    handle_volume_set full setting (codes "-o" ∷ codes "100" ∷ [])
    ≡ some (5, parse_volume full (codes "100"))
unfolding same_string listed save_bound_physical_device parse_volume
set_output_reaches_bound_example =
    set_output_reaches_bound full setting (codes "100") 5 83 (112 ∷ 107 ∷ []) none (5 ∷ []) refl
      refl speaker-IsOneLine (omega arith) refl refl refl refl only_speaker refl

-- A speaker at 50 %.
abbrev use_calls : UseCalls
use_calls = record { writable = true; physical_volume = some 0x3f00_0000; path_known = true }
