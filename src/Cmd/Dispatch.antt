-- ===== src/Cmd/Dispatch.antt =====
-- main.go: which command the arguments name.
mod Tests
use log_shipper.Base.{String, List, [], ◌∷◌, if◌then◌else◌, str_eq}

-- The command that is executed; the word that there is none; nothing at all; the panic of `args[1]`
-- out of range.
pub data Command : Type 0 where
  runs source_nomad no_command nothing out_of_range : Command

source_command : List String → Command
source_command [] = out_of_range
source_command (name ∷ rest) = if str_eq name "nomad" then source_nomad else nothing

unfoldable pub command : List String → Command
unfolding source_command
command [] = no_command
command (name ∷ rest) =
    if str_eq name "run"
    then runs
    else if str_eq name "source"
    then source_command rest
    else nothing
