-- ===== src/Control/Examples.antt =====
-- The theorems of the application volumes at concrete inputs, and runs of the code.
use audioctl.Base.{◌≡◌, refl, true, false, none, some, List, [], ◌∷◌}
use audioctl.Base.Float.{f_zero}
use audioctl.Base.Status.{no_err, minus_one}
use audioctl.Ipc.Registry.{clamp_volume}
use audioctl.Ipc.Client.{Attempt, Exchange, ipc_client_init}
use audioctl.Control.{Control, Link, app_volume_control_init}
use audioctl.Control.Array.{empty_list}
use audioctl.Control.Entries.{lookup, update, remove, active}
use audioctl.Control.Spec.{
  Call, set_volume, register, unregister, get_volume, active_count, status, volume, count,
}
use audioctl.Control.Refine.{run, answers, run_from_init}

-- Nobody listens at the socket.
abbrev nobody : Attempt
nobody = record {
  path_known = true;
  file_exists = false;
  socket = none;
  timeout_set = true;
  connecting = false;
  now = 0;
}

abbrev silence : Exchange
silence = record {
  header_sent = false;
  payload_sent = false;
  header_bytes = none;
  payload = none;
  sent_at = 0;
  received_at = 0;
}

abbrev offline : Link
offline = record {
  attempt = nobody;
  now = 0;
  ping = silence;
  again = nobody;
  allocated = true;
  request = silence;
}

abbrev start : Control
start = record {
  volumes = empty_list;
  initialized = false;
  ipc_client = ipc_client_init;
  ipc_initialized = false;
}

abbrev calls : List Call
calls =
    register 7 none none offline
    ∷ register 8 none none offline
    ∷ set_volume 8 f_zero offline
    ∷ unregister 7 offline
    ∷ get_volume 8
    ∷ get_volume 7
    ∷ active_count
    ∷ []

run_from_init_example : run calls (app_volume_control_init start) ≡ answers calls []
run_from_init_example = run_from_init calls start refl

-- The answers, as the list gives them.
answers_run :
    answers calls []
    ≡ status no_err
      ∷ status no_err
      ∷ status no_err
      ∷ status no_err
      ∷ volume no_err (some f_zero)
      ∷ volume minus_one none
      ∷ count 1
      ∷ []
unfolding answers lookup update remove active clamp_volume
answers_run = refl
