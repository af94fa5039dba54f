-- ===== src/Manager/Examples.antt =====
-- The theorems of the manager on a machine with a speaker and the virtual device.
use audioctl.Base.{◌-◌}
use audioctl.Manager.{CoreAudio}
use audioctl.Manager.Speakers.{Speakers, audio}

-- A device that comes up after a second.
abbrev starting : CoreAudio Speakers
starting = record audio { sleep_ms = λ n s. (s.0, s.1 - n) }
