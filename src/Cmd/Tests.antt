-- ===== src/Cmd/Tests.antt =====
-- The connections of a configuration are started under their names.
use log_shipper.Base.{◌≡◌, refl, String, some, [], ◌∷◌}
use log_shipper.Base.Dict.{Dict, insert}
use log_shipper.Monitoring.{Details}
use log_shipper.Cmd.{add_connection, start_connections}

abbrev details : String → Dict Details
details name = (name, record { host = "127.0.0.1"; port = 4000 }) ∷ []

start_connections_test :
    start_connections (add_connection "app" (some (record { host = "127.0.0.1"; port = 4000 })) [])
    ≡ some (details "app")
unfolding start_connections add_connection insert
start_connections_test = refl
