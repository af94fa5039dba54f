-- ===== src/Cli/Options.antt =====
-- The options of `audioctl list` (src/main.c), and the devices that they choose.
use audioctl.Base.{
  ℕ, ◌+◌, Bool, true, false, not, ◌&&◌, ◌||◌, Option, none, some, List, [], ◌∷◌, ◌==◌,
  if◌then◌else◌,
}
use audioctl.Base.Bytes.{Bytes, codes}
use audioctl.Cli.{same_string}

pub record ProgramOptions : Type 0 where
  pub show_only_active : Bool
  pub show_only_input : Bool
  pub show_only_output : Bool
  pub set_input_volume : Bool
  pub set_output_volume : Bool

-- The flag at an offset of `ProgramOptions`.
pub data Flag : Type 0 where
  active input output : Flag

abbrev pub raise_flag : Flag → ProgramOptions → ProgramOptions
raise_flag active opts = record opts { show_only_active = true }
raise_flag input opts = record opts { show_only_input = true }
raise_flag output opts = record opts { show_only_output = true }

pub record CommandOption : Type 0 where
  pub short_opt : ℕ
  pub long_opt : Bytes
  pub flag : Flag

-- The table before its end mark.
abbrev pub command_options : List CommandOption
command_options =
    record { short_opt = 97; long_opt = codes "active"; flag = active }
    ∷ record { short_opt = 105; long_opt = codes "input"; flag = input }
    ∷ record { short_opt = 111; long_opt = codes "output"; flag = output }
    ∷ []

-- The flag is the result; the warning of an unknown option is not modelled.
unfoldable pub parse_short_option : ℕ → List CommandOption → ProgramOptions → Bool × ProgramOptions
parse_short_option opt [] opts = (false, opts)
parse_short_option opt (o ∷ os) opts =
    let rest = parse_short_option opt os opts in
    if opt == o.short_opt then (true, raise_flag o.flag opts) else rest

-- The argument behind its "--".
unfoldable pub parse_long_option :
    Bytes → List CommandOption → ProgramOptions → Bool × ProgramOptions
parse_long_option arg [] opts = (false, opts)
parse_long_option arg (o ∷ os) opts =
    let rest = parse_long_option arg os opts in
    if same_string arg o.long_opt then (true, raise_flag o.flag opts) else rest

-- The loop over the characters of an argument.
unfoldable pub parse_short_options :
    Bytes → List CommandOption → ProgramOptions → Bool × ProgramOptions
parse_short_options [] options opts = (true, opts)
parse_short_options (c ∷ cs) options opts =
    let (known, opts') = parse_short_option c options opts in
    let rest = parse_short_options cs options opts' in if known then rest else (false, opts')

unfoldable pub handle_argument : Bytes → List CommandOption → ProgramOptions → Bool × ProgramOptions
handle_argument [] options opts = (false, opts)
handle_argument (a ∷ []) options opts = (false, opts)
handle_argument (a ∷ b ∷ []) options opts =
    if not (a == 45)
    then (false, opts)
    else if b == 45
    then (false, opts)
    else parse_short_options (b ∷ []) options opts
handle_argument (a ∷ b ∷ c ∷ cs) options opts =
    if not (a == 45)
    then (false, opts)
    else if b == 45
    then parse_long_option (c ∷ cs) options opts
    else parse_short_options (b ∷ c ∷ cs) options opts

-- The loop over the arguments.
unfoldable pub handle_arguments :
    List Bytes → List CommandOption → ProgramOptions → Bool × ProgramOptions
handle_arguments [] options opts = (true, opts)
handle_arguments (arg ∷ args) options opts =
    let (fine, opts') = handle_argument arg options opts in
    let rest = handle_arguments args options opts' in if fine then rest else (false, opts')

abbrev pub no_options : ProgramOptions
no_options = record {
  show_only_active = false;
  show_only_input = false;
  show_only_output = false;
  set_input_volume = false;
  set_output_volume = false;
}

unfoldable pub validate_option_combination : ProgramOptions → Bool
validate_option_combination opts = not (opts.show_only_input && opts.show_only_output)

-- The arguments from `argv[2]` on.
unfoldable pub parse_options : List Bytes → Bool × ProgramOptions
parse_options args =
    let (fine, opts) = handle_arguments args command_options no_options in
    if fine then (validate_option_combination opts, opts) else (false, opts)

-- `AudioDeviceType`
pub data DeviceType : Type 0 where
  unknown_type input_type output_type input_output_type : DeviceType

-- What the options look at in an `AudioDeviceInfo`.
pub record Device : Type 0 where
  pub device_id : ℕ
  pub device_type : DeviceType
  pub is_running : Bool

abbrev pub is_input : DeviceType → Bool
is_input input_type = true
is_input _ = false

abbrev pub is_output : DeviceType → Bool
is_output output_type = true
is_output _ = false

abbrev pub is_input_output : DeviceType → Bool
is_input_output input_output_type = true
is_input_output _ = false

unfoldable pub is_device_matched : Device → ProgramOptions → Bool
is_device_matched device opts =
    if opts.show_only_active && not device.is_running
    then false
    else if opts.show_only_input && not (is_input device.device_type)
    then false
    else not (
        opts.show_only_output
        && (not (is_output device.device_type) && not (is_input_output device.device_type)))

unfoldable pub count_matched_devices : List Device → ProgramOptions → ℕ
count_matched_devices [] opts = 0
count_matched_devices (d ∷ ds) opts =
    let rest = count_matched_devices ds opts in if is_device_matched d opts then 1 + rest else rest

-- The devices that the loop of `handleListCommand` prints.
unfoldable pub listed_devices : List Device → ProgramOptions → List Device
listed_devices [] opts = []
listed_devices (d ∷ ds) opts =
    let rest = listed_devices ds opts in if is_device_matched d opts then d ∷ rest else rest

-- The exit status, and the count and the devices put out; the devices are `none` if they cannot be
-- had.
unfoldable pub handle_list_command :
    List Bytes → Option (List Device) → ℕ × Option (ℕ × List Device)
handle_list_command args devices =
    let (fine, opts) = parse_options args in
    if not fine then (1, none) else elim devices [
      | none ↦ (1, none)
      | some ds ↦ (0, some (count_matched_devices ds opts, listed_devices ds opts))
    ]

-- The walk of `findRunningDevice`.
unfoldable pub find_running_device : Bool → List Device → Option ℕ
find_running_device for_input [] = none
find_running_device for_input (d ∷ ds) =
    let rest = find_running_device for_input ds in
    if d.is_running
      && ((for_input && is_input d.device_type) || (not for_input && is_output d.device_type))
    then some d.device_id
    else rest
