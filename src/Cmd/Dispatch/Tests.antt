-- ===== src/Cmd/Dispatch/Tests.antt =====
-- A source that is not named, and a command that is not known.
use log_shipper.Base.{◌≡◌, refl, [], ◌∷◌}
use log_shipper.Cmd.Dispatch.{out_of_range, nothing, command}

source_test : command ("source" ∷ []) ≡ out_of_range
unfolding command
source_test = refl

unknown_test : command ("start" ∷ "nomad" ∷ []) ≡ nothing
unfolding command
unknown_test = refl
