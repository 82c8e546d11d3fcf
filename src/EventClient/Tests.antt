-- ===== src/EventClient/Tests.antt =====
-- The theorems on the event client at concrete inputs.
use fabric_sdk_go_gm.Common.{
  ℕ, zero, suc, ◌≡◌, refl, Bool, true, false, List, [], ◌∷◌, none, some, arith,
}
use fabric_sdk_go_gm.Common.Int.{pos}
use fabric_sdk_go_gm.Common.Outcome.{IfDone, Returns}
use fabric_sdk_go_gm.Selection.{Peer}
use fabric_sdk_go_gm.Service.Tests.{library, dispatcher, dispatcher-IsLive}
use fabric_sdk_go_gm.EventClient.{ok, err, Surroundings, ConnectionChannel}
use fabric_sdk_go_gm.EventClient.Dispatcher.{
  ClientDispatcher, ClientEvent, connect_event, connected_event, disconnect_event,
  disconnected_event, stop_event, run,
}
use fabric_sdk_go_gm.EventClient.Dispatcher.Connections.{Balanced, run-Balanced}
use fabric_sdk_go_gm.EventClient.Client.{
  Client, disconnected, connect, connect_with_retry, close_client, close_if_idle,
}
use fabric_sdk_go_gm.EventClient.Client.Attempts.{IsUsable, Attempted, connect-Attempted}
use fabric_sdk_go_gm.EventClient.Client.Retrying.{Ended, connect_with_retry-Ended}
use fabric_sdk_go_gm.EventClient.Client.Closing.{IsClosable, Shut, close_client-Shut}
use fabric_sdk_go_gm.EventClient.Client.Idle.{ClosesIfIdle, close_if_idle-ClosesIfIdle}

abbrev peer : Peer
peer = record { addr = 0; url = 112 ∷ []; msp_id = []; block_height = some 12 }

abbrev ready : ℕ → ℕ → Bool
ready c n = true

abbrev surroundings : Surroundings
surroundings = record {
  get_peers = ok (peer ∷ []);
  resolve = λ ps. ok peer;
  provide = λ p. ok 6;
  made = 0;
  after_connect = none;
}

-- The discovery service fails at the first attempt.
abbrev attempts : ℕ → Surroundings
attempts zero = record surroundings { get_peers = err (101 ∷ []) }
attempts (suc n) = surroundings

abbrev open_chan : ConnectionChannel
open_chan = record { closed = false; log = []; tries = 0 }

abbrev client_dispatcher : ClientDispatcher
client_dispatcher = record {
  base = dispatcher;
  peer_monitor_period = pos 5;
  connection = none;
  connection_registration = none;
  peer_monitor_done = none;
  peer = none;
  connection_chans = λ c. open_chan;
  received = [];
  closed = [];
  monitors = 0;
  monitors_closed = [];
}

abbrev client : Client
client = record {
  ed = client_dispatcher;
  connection_state = disconnected;
  stopped = false;
  registered_once = false;
  conn_event = none;
  conn_event_ch = some open_chan;
  max_conn_attempts = 3;
}

client-IsUsable : IsUsable client
client-IsUsable = record { open_chans = λ j. refl; is_started = refl; not_stopped = refl }

-- The client once it is connected.
abbrev pub connected_client : Client
connected_client = record client {
  ed = record client_dispatcher { connection = some 6; received = 6 ∷ [] };
}

closed_of : (ch : ConnectionChannel) → client.conn_event_ch ≡ some ch → ch.closed ≡ false
closed_of ch e = cc

pub connected-IsClosable : IsClosable connected_client
connected-IsClosable = record {
  usable = record { open_chans = λ j. refl; is_started = refl; not_stopped = refl };
  live = dispatcher-IsLive;
  has_channel = tt;
  subscriber = closed_of;
}

abbrev events : List ClientEvent
events =
    connect_event surroundings
    ∷ connected_event
    ∷ disconnect_event
    ∷ connect_event surroundings
    ∷ disconnected_event (record { cause = []; fatal = false })
    ∷ connect_event surroundings
    ∷ stop_event
    ∷ []

run-Balanced_example : IfDone Balanced (run library ready events client_dispatcher)
run-Balanced_example = run-Balanced library ready events client_dispatcher refl

connect-Attempted_example : Returns Attempted (connect ready surroundings client)
connect-Attempted_example = connect-Attempted ready surroundings client client-IsUsable refl

connect_with_retry-Ended_example :
    Returns (Ended ready attempts 3 0 client) (connect_with_retry ready attempts 3 3 0 client)
connect_with_retry-Ended_example =
    connect_with_retry-Ended ready attempts 3 3 0 client (omega arith) (omega arith) client-IsUsable
      refl

close_client-Shut_example : Returns Shut (close_client connected_client)
close_client-Shut_example = close_client-Shut connected_client connected-IsClosable

close_if_idle-ClosesIfIdle_example :
    Returns (ClosesIfIdle connected_client) (close_if_idle connected_client)
close_if_idle-ClosesIfIdle_example =
    close_if_idle-ClosesIfIdle connected_client connected-IsClosable
