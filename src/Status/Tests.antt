-- ===== src/Status/Tests.antt =====
-- Two callers at the status of a connection.
use iscp_go.Prelude.{◌≡◌, [], ◌∷◌, ◌==◌, if◌then◌else◌}
use iscp_go.Status.{conn_connected, conn_reconnecting, conn_closed, conn_status_eq}
use iscp_go.Status.Races.{race, race_lem}

race_example : race conn_reconnecting conn_reconnecting (conn_connected ∷ conn_closed ∷ []) ≡ (
    if conn_reconnecting == conn_reconnecting then (conn_connected, 1) else (conn_reconnecting, 0))
race_example =
    race_lem conn_reconnecting conn_reconnecting conn_connected (conn_closed ∷ [])
      (λ q. cc, (λ q. cc, tt))
