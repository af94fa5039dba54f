-- ===== src/Router/Samples.antt =====
-- Test data for the router: a route that has not been started, and answers with which it can be.
use audioctl.Base.{true, false, none, some}
use audioctl.Base.Status.{no_err}
use audioctl.Router.Ring.{RingBuffer}
use audioctl.Router.Context.{RouterContext}
use audioctl.Router.Lifecycle.{Answers}

abbrev pub blank : RingBuffer
blank = record {
  buffer = none;
  capacity = 0;
  write_pos = 0;
  read_pos = 0;
  peak_usage = 0;
  current_usage = 0;
  samples_buffered = 0;
}

abbrev pub stopped : RouterContext
stopped = record {
  input_device = none;
  output_device = none;
  ring_buffer = blank;
  is_running = false;
  sample_rate = 0;
  channels = 0;
  bits_per_channel = 0;
  frames_transferred = 0;
  underrun_count = 0;
  overrun_count = 0;
  start_time = 0;
  output_gain = 0;
}

abbrev pub answers : Answers
answers = record {
  virtual_device = some 7;
  physical_device = some 9;
  virtual_rate = some 48000;
  physical_rate = none;
  allocated = true;
  now_us = 1000;
  create_input = no_err;
  create_output = no_err;
  start_input = no_err;
  start_output = no_err;
}
