-- ===== src/EventClient/Client/Monitor/Tests.antt =====
-- The theorems on the monitor at a concrete client.
use fabric_sdk_go_gm.Common.{◌≡◌, ◌≢◌, refl, true, false, [], ◌∷◌, none, some}
use fabric_sdk_go_gm.Common.Outcome.{done, panics, closed_channel, Returns}
use fabric_sdk_go_gm.EventClient.{ConnectionEvent}
use fabric_sdk_go_gm.EventClient.Client.{
  Client, connected, disconnected, set_connection_state, close_client,
}
use fabric_sdk_go_gm.EventClient.Client.Monitor.{
  reconnecting, notify_connect_event_chan, monitor_event, monitor_round,
}
use fabric_sdk_go_gm.EventClient.Client.Monitor.Racing.{close-panics}
use fabric_sdk_go_gm.EventClient.Tests.{connected_client, connected-IsClosable}

abbrev disconnect : ConnectionEvent
disconnect = record { connected = false; error = some (record { cause = []; fatal = false }) }

abbrev quiet_client : Client
quiet_client = record connected_client { connection_state = connected; conn_event_ch = none }

abbrev waiting_client : Client
waiting_client = record quiet_client { connection_state = disconnected }

-- A disconnect of a connected client starts a reconnect.
disconnect_round :
    monitor_round true true disconnect quiet_client ≡ done (waiting_client, reconnecting ∷ [], true)
unfolding monitor_round set_connection_state notify_connect_event_chan
disconnect_round = refl

has_subscriber : connected_client.conn_event_ch ≢ none
has_subscriber = λ e. cc

close-panics_example :
    Returns
      (λ r. monitor_event true true disconnect r.0 ≡ panics closed_channel)
      (close_client connected_client)
close-panics_example =
    close-panics true true disconnect connected_client connected-IsClosable has_subscriber
