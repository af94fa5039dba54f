-- ===== src/Cli.antt =====
-- The command line (src/main.c): the options of `audioctl list`, the numbers of `audioctl set`, and
-- the choice of the command. Arguments are C strings, without their nulls.
pub mod Options
pub mod Reference
pub mod Numbers
pub mod Route
pub mod Set
pub mod Switch
pub mod Virtual
pub mod App
pub mod Session
pub mod Print
pub mod Background
pub mod Spawn
mod Examples
mod SessionExamples
mod BackgroundExamples
use audioctl.Base.{ℕ, Bool, true, false, not, ◌&&◌, List, [], ◌∷◌, ◌==◌}
use audioctl.Base.Bytes.{Bytes}

-- `strcmp (a, b) == 0`
unfoldable pub same_string : Bytes → Bytes → Bool
same_string [] [] = true
same_string [] (b ∷ t) = false
same_string (a ∷ s) [] = false
same_string (a ∷ s) (b ∷ t) = a == b && same_string s t
