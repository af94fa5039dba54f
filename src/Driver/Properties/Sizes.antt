-- ===== src/Driver/Properties/Sizes.antt =====
-- What GetPropertyData writes, against what HasProperty and GetPropertyDataSize announce.
use audioctl.Base.{
  ℕ, ◌+◌, ◌-◌, ◌*◌, ◌/◌, ◌≤◌, ◌≡◌, refl, Bool, true, false, not, ◌&&◌, none, some, length, take,
  ◌==◌, ltb, Bool-cases, inl, inr, arith, take_all, ==_iff,
}
use audioctl.Driver.Clients.{Driver}
use audioctl.Driver.Clients.Slots.{active_pids, active_count_bound, length-active_pids}
use audioctl.Driver.Clients.Registered.{IsValid, get_client_pids_lem}
use audioctl.Driver.Loopback.{Io, device_object_id}
use audioctl.Driver.Properties.{
  Selector, Scope, base_class, object_class, plug_in_device_list, device_uid, object_name,
  manufacturer, device_streams, stream_configuration, nominal_sample_rate, device_icon,
  transport_type, can_be_default_device, can_be_default_system_device, device_is_alive,
  device_is_running, app_volumes, app_client_list, device_latency, safety_offset,
  zero_time_stamp_period, stream_direction, stream_is_active, virtual_format, physical_format,
  available_virtual_formats, available_physical_formats, terminal_type, starting_channel,
  global_scope, input_scope, output_scope, other_scope, plug_in_has, device_has, stream_has,
  has_property, device_size, stream_size, plug_in_size, get_property_data_size, table_size, Value,
  class_id, object_ids, string_ref, url_ref, uint32, code, float64, buffer_list, format,
  ranged_format, volume_table, process_ids, Answer, plug_in_data, device_data, stream_data,
  client_list, get_property_data, plug_in_object_id, output_stream_id, input_stream_id,
}

-- The bytes that a value takes in the memory of the host.
abbrev pub written : Value → ℕ
written (class_id c) = 4
written (object_ids ids) = 4 * length ids
written (string_ref t) = 8
written (url_ref t) = 8
written (uint32 n) = 4
written (code c) = 4
written (float64 x) = 8
written (buffer_list channels bytes) = 24
written (format f) = 40
written (ranged_format f a b) = 56
written (volume_table t) = table_size
written (process_ids pids) = 4 + 4 * length pids

-- The sample rate of the device, and its streams in a scope that is not global, input or output.
abbrev pub overflows : ℕ → Selector → Scope → Bool
overflows object nominal_sample_rate scope = object == device_object_id
overflows object device_streams (other_scope n) = object == device_object_id
overflows object _ scope = false

-- An answer to a host whose memory has the announced size: it fits, or it takes 8 bytes where 4
-- were announced.
abbrev pub Fits : Bool → ℕ → Answer → Type 0
Fits b announced (none, size) = ⊥
Fits true announced (some v, size) = (announced ≡ 4) × (written v ≡ 8) × (size ≡ 8)
Fits false announced (some v, size) = (written v ≤ size) × (size ≤ announced)

plug_in_data-Fits :
    (s : Selector)
    → plug_in_has s ≡ true
    → Fits false (plug_in_size s) (plug_in_data s (plug_in_size s))
plug_in_data-Fits base_class h = omega arith
plug_in_data-Fits object_class h = omega arith
plug_in_data-Fits plug_in_device_list h = omega arith
plug_in_data-Fits _ h = absurd (cc h)

stream_data-Fits :
    (is_input : Bool) (s : Selector)
    → stream_has s ≡ true
    → Fits false (stream_size s) (stream_data is_input s (stream_size s))
stream_data-Fits is_input base_class h = omega arith
stream_data-Fits is_input object_class h = omega arith
stream_data-Fits is_input stream_direction h = omega arith
stream_data-Fits is_input stream_is_active h = omega arith
stream_data-Fits is_input virtual_format h = omega arith
stream_data-Fits is_input physical_format h = omega arith
stream_data-Fits is_input available_virtual_formats h = omega arith
stream_data-Fits is_input available_physical_formats h = omega arith
stream_data-Fits is_input terminal_type h = omega arith
stream_data-Fits is_input starting_channel h = omega arith
stream_data-Fits is_input _ h = absurd (cc h)

client_list-Fits : (g : Driver) → IsValid g → Fits false (4 + 64 * 4) (client_list g (4 + 64 * 4))
client_list-Fits g v = omega (arith, (get_client_pids_lem g 64 v).1)

device_data-Fits :
    (g : Driver) (io : Io) (s : Selector) (scope : Scope)
    → IsValid g
    → device_has s ≡ true
    → Fits
        (overflows device_object_id s scope)
        (device_size s scope)
        (device_data g io s scope (device_size s scope))
device_data-Fits g io app_client_list scope v h = client_list-Fits g v
device_data-Fits g io device_streams global_scope v h = omega arith
device_data-Fits g io device_streams input_scope v h = omega arith
device_data-Fits g io device_streams output_scope v h = omega arith
device_data-Fits g io device_streams (other_scope n) v h = omega arith
device_data-Fits g io nominal_sample_rate scope v h = omega arith
device_data-Fits g io base_class scope v h = omega arith
device_data-Fits g io object_class scope v h = omega arith
device_data-Fits g io device_uid scope v h = omega arith
device_data-Fits g io object_name scope v h = omega arith
device_data-Fits g io manufacturer scope v h = omega arith
device_data-Fits g io stream_configuration scope v h = omega arith
device_data-Fits g io device_icon scope v h = omega arith
device_data-Fits g io transport_type scope v h = omega arith
device_data-Fits g io can_be_default_device scope v h = omega arith
device_data-Fits g io can_be_default_system_device scope v h = omega arith
device_data-Fits g io device_is_alive scope v h = omega arith
device_data-Fits g io device_is_running scope v h = omega arith
device_data-Fits g io app_volumes scope v h = omega arith
device_data-Fits g io device_latency scope v h = omega arith
device_data-Fits g io safety_offset scope v h = omega arith
device_data-Fits g io zero_time_stamp_period scope v h = omega arith
device_data-Fits g io _ scope v h = absurd (cc h)

-- Either the object is one of the four, or it has no property.
data Kind : ℕ → Type 0 where
  plug_in : Kind plug_in_object_id
  device : Kind device_object_id
  output_stream : Kind output_stream_id
  input_stream : Kind input_stream_id
  no_object :
      (n : ℕ)
      → n == plug_in_object_id ≡ false
      → n == device_object_id ≡ false
      → n == output_stream_id ≡ false
      → n == input_stream_id ≡ false
      → Kind n

kind_of : (n : ℕ) → Kind n
kind_of n = elim (Bool-cases (n == plug_in_object_id)) [
  | inl e ↦ rw ((==_iff n plug_in_object_id).0 e) plug_in
  | inr e1 ↦ elim (Bool-cases (n == device_object_id)) [
    | inl e ↦ rw ((==_iff n device_object_id).0 e) device
    | inr e2 ↦ elim (Bool-cases (n == output_stream_id)) [
      | inl e ↦ rw ((==_iff n output_stream_id).0 e) output_stream
      | inr e3 ↦ elim (Bool-cases (n == input_stream_id)) [
        | inl e ↦ rw ((==_iff n input_stream_id).0 e) input_stream
        | inr e4 ↦ no_object n e1 e2 e3 e4
      ]
    ]
  ]
]

not_over :
    (n : ℕ) (s : Selector) (scope : Scope)
    → n == device_object_id ≡ false
    → overflows n s scope ≡ false
not_over n nominal_sample_rate scope h = h
not_over n device_streams (other_scope m) h = h
not_over n _ scope h = refl

get_property_data-Fits_of_kind :
    (g : Driver) (io : Io) (object : ℕ) (s : Selector) (scope : Scope)
    → Kind object
    → IsValid g
    → has_property object s ≡ true
    → Fits
        (overflows object s scope)
        (get_property_data_size object s scope)
        (get_property_data g io object s scope (get_property_data_size object s scope))
unfolding has_property get_property_data_size get_property_data
get_property_data-Fits_of_kind g io object s scope plug_in v h =
    rw (not_over plug_in_object_id s scope refl) (plug_in_data-Fits s h)
get_property_data-Fits_of_kind g io object s scope device v h = device_data-Fits g io s scope v h
get_property_data-Fits_of_kind g io object s scope output_stream v h =
    rw (not_over output_stream_id s scope refl) (stream_data-Fits false s h)
get_property_data-Fits_of_kind g io object s scope input_stream v h =
    rw (not_over input_stream_id s scope refl) (stream_data-Fits true s h)
get_property_data-Fits_of_kind g io object s scope (no_object n a b c d) v h =
    absurd (ground (arith, h))

-- A host that asks GetPropertyDataSize, gives as much memory, and then asks GetPropertyData for a
-- property that HasProperty reports gets a value that fits, and a size that is not larger than
-- announced, with two exceptions: the sample rate of the device, and its streams in a scope that is
-- not global, input or output. There 4 bytes are announced and 8 are written. The table of clients is
-- valid.
pub get_property_data-Fits :
    (g : Driver) (io : Io) (object : ℕ) (s : Selector) (scope : Scope)
    → IsValid g
    → has_property object s ≡ true
    → let announced = get_property_data_size object s scope in
      Fits (overflows object s scope) announced (get_property_data g io object s scope announced)
get_property_data-Fits g io object s scope v h =
    get_property_data-Fits_of_kind g io object s scope (kind_of object) v h

abbrev pub is_some : Answer → Bool
is_some (none, size) = false
is_some (some v, size) = true

-- The two properties that look at the memory of the host.
abbrev pub too_small : Selector → ℕ → Bool
too_small app_volumes size = ltb size table_size
too_small app_client_list size = ltb size 4
too_small _ size = false

device_answers :
    (g : Driver) (io : Io) (s : Selector) (scope : Scope) (size : ℕ)
    → is_some (device_data g io s scope size) ≡ (device_has s && not (too_small s size))
device_answers g io app_volumes scope size = ground arith
device_answers g io app_client_list scope size = ground arith
device_answers g io base_class scope size = refl
device_answers g io _ scope size = refl

plug_in_answers :
    (s : Selector) (size : ℕ)
    → is_some (plug_in_data s size) ≡ (plug_in_has s && not (too_small s size))
plug_in_answers base_class size = refl
plug_in_answers _ size = refl

stream_answers :
    (is_input : Bool) (s : Selector) (size : ℕ)
    → is_some (stream_data is_input s size) ≡ (stream_has s && not (too_small s size))
stream_answers is_input base_class size = refl
stream_answers is_input _ size = refl

answers_of :
    (g : Driver) (io : Io) (object : ℕ) (s : Selector) (scope : Scope) (size : ℕ)
    → Kind object
    → is_some (get_property_data g io object s scope size)
      ≡ (has_property object s && not (too_small s size))
unfolding has_property get_property_data
answers_of g io object s scope size plug_in = plug_in_answers s size
answers_of g io object s scope size device = device_answers g io s scope size
answers_of g io object s scope size output_stream = stream_answers false s size
answers_of g io object s scope size input_stream = stream_answers true s size
answers_of g io object s scope size (no_object n a b c d) = ground arith

-- GetPropertyData writes a value exactly for the properties that HasProperty reports, for every
-- object, selector and scope; only the volume table and the list of clients want enough memory.
pub get_property_data-has_property :
    (g : Driver) (io : Io) (object : ℕ) (s : Selector) (scope : Scope) (size : ℕ)
    → is_some (get_property_data g io object s scope size)
      ≡ (has_property object s && not (too_small s size))
get_property_data-has_property g io object s scope size =
    answers_of g io object s scope size (kind_of object)

-- The list of clients, for a valid table: in memory of 4 bytes or more the process ids of the
-- registered clients in the order of their slots, as many as there is room for, never beyond the
-- memory; in memory of the announced size all of them.
pub get_property_data-active_pids :
    (g : Driver) (io : Io) (scope : Scope) (size : ℕ)
    → IsValid g
    → 4 ≤ size
    → let (value, size') = get_property_data g io device_object_id app_client_list scope size in
      let announced = get_property_data_size device_object_id app_client_list scope in
      (value ≡ some (process_ids (take ((size - 4) / 4) (active_pids g.clients))))
      × (size' ≤ size)
      × (get_property_data g io device_object_id app_client_list scope announced
          ≡ (some (process_ids (active_pids g.clients)), 4 + g.client_count * 4))
unfolding get_property_data get_property_data_size
get_property_data-active_pids g io scope size v room =
    let (listed, counted) = get_client_pids_lem g ((size - 4) / 4) v in
    let (listed', counted') = get_client_pids_lem g 64 v in
    let all : take 64 (active_pids g.clients) ≡ active_pids g.clients =
      take_all 64 (active_pids g.clients)
        (omega (arith, length-active_pids g.clients, active_count_bound g.clients, v.slots)) in
    (
      ground (arith, listed),
      ground (arith, counted),
      ground (
        arith,
        listed',
        all,
        counted',
        length-active_pids g.clients,
        active_count_bound g.clients,
        v.slots,
        v.counted,
      ),
    )
