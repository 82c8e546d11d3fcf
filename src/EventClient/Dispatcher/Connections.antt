-- ===== src/EventClient/Dispatcher/Connections.antt =====
-- The connections of the client's dispatcher: which are open.
use mathlib.Core.List.{append-nil}
use fabric_sdk_go_gm.Common.{ℕ, ◌≡◌, refl, Bool, List, [], ◌∷◌, ◌++◌, Option, none, some, arith}
use fabric_sdk_go_gm.Common.Outcome.{
  Outcome, done, ◌>>=◌, IfDone, IfDone->>=, IfDone-any, IfDone-if,
}
use fabric_sdk_go_gm.Service.Registrations.{Event}
use fabric_sdk_go_gm.Service.Registrations
use fabric_sdk_go_gm.Service.Dispatcher
use fabric_sdk_go_gm.Service.Start.{event_ch}
use fabric_sdk_go_gm.Service.Handlers
use fabric_sdk_go_gm.EventClient.{Surroundings, DisconnectedError, ConnectionEvent}
use fabric_sdk_go_gm.EventClient.Dispatcher.{
  ClientDispatcher, ClientReply, replied, ConnectionReg, clear_connection_registration,
  close_peer_monitor, handle_stop_event, open_connection, handle_connect_event,
  handle_disconnect_event, handle_register_connection_event, notify, start_peer_monitor,
  handle_connected_event, close_connection, handle_disconnected_event, ClientEvent, stop_event,
  connect_event, disconnect_event, connected_event, disconnected_event, register_connection_event,
  service_event, handle, run,
}

abbrev pub held : Option ℕ → List ℕ
held none = []
held (some c) = c ∷ []

-- Every connection on which `Receive` was started has been closed, once and in the same order, but
-- for the one that is held.
abbrev pub Balanced : ClientDispatcher → Type 0
Balanced ed = ed.received ≡ ed.closed ++ held ed.connection

-- The connections are as before.
abbrev SameConnections : ClientDispatcher → ClientDispatcher → Type 0
SameConnections ed ed' =
    (ed'.received ≡ ed.received) × ((ed'.closed ≡ ed.closed) × (ed'.connection ≡ ed.connection))

same-Balanced : (ed ed' : ClientDispatcher) → SameConnections ed ed' → Balanced ed → Balanced ed'
same-Balanced ed ed' k b = rw (k.0, k.1.0, k.1.1) b

clear-Same :
    (ed : ClientDispatcher) → IfDone (SameConnections ed) (clear_connection_registration ed)
unfolding clear_connection_registration
clear-Same ed = ground arith

monitor-Same : (ed : ClientDispatcher) → SameConnections ed (close_peer_monitor ed)
unfolding close_peer_monitor
monitor-Same ed = ground arith

start_monitor-Same :
    (ready : ℕ → ℕ → Bool) (ed : ClientDispatcher)
    → SameConnections ed (start_peer_monitor ready ed)
unfolding start_peer_monitor
start_monitor-Same ready ed = ground arith

notify-Same :
    (ready : ℕ → ℕ → Bool) (c : Option ℕ) (e : ConnectionEvent) (ed : ClientDispatcher)
    → IfDone (SameConnections ed) (notify ready c e ed)
unfolding notify
notify-Same ready none e ed = (refl, (refl, refl))
notify-Same ready (some c) e ed = ground arith

handle_stop-Balanced :
    (ed : ClientDispatcher) → Balanced ed → IfDone (λ r. Balanced r.0) (handle_stop_event ed)
unfolding handle_stop_event
handle_stop-Balanced ed b =
    IfDone->>= (SameConnections ed) (λ (r : ClientDispatcher × ClientReply). Balanced r.0)
      (clear_connection_registration ed) _ (clear-Same ed)
      λ ed1 k.
        let b1 = same-Balanced ed ed1 k b in
        let b2 = same-Balanced ed1 (close_peer_monitor ed1) (monitor-Same ed1) b1 in
        IfDone->>= (λ _. Unit {0}) (λ (r : ClientDispatcher × ClientReply). Balanced r.0)
          (Handlers.handle_stop_event (close_peer_monitor ed1).base) _ (IfDone-any _) λ r _. b2

handle_connect-Balanced :
    (s : Surroundings) (ed : ClientDispatcher)
    → Balanced ed
    → Balanced (handle_connect_event s ed).0
unfolding handle_connect_event open_connection event_ch
handle_connect-Balanced s ed b = ground (arith, b, append-nil ed.closed)

handle_disconnect-Balanced :
    (ed : ClientDispatcher) → Balanced ed → Balanced (handle_disconnect_event ed).0
unfolding handle_disconnect_event
handle_disconnect-Balanced ed b = ground (arith, b, append-nil (ed.closed ++ held ed.connection))

close_connection-Balanced :
    (ready : ℕ → ℕ → Bool) (ed : ClientDispatcher)
    → Balanced ed
    → Balanced (close_connection ready ed)
unfolding close_connection
close_connection-Balanced ready ed b =
    ground (arith, b, append-nil (ed.closed ++ held ed.connection))

then-Balanced :
    (m : Outcome ClientDispatcher) (ed : ClientDispatcher) (f : ClientDispatcher → ClientDispatcher)
    → IfDone (SameConnections ed) m
    → ((d : ClientDispatcher) → SameConnections d (f d))
    → Balanced ed
    → IfDone Balanced (m >>= λ d. done (f d))
then-Balanced m ed f k g b =
    IfDone->>= (SameConnections ed) Balanced m _ k
      λ d h. same-Balanced d (f d) (g d) (same-Balanced ed d h b)

module _ (lib : Handlers.Library) (ready : ℕ → ℕ → Bool) where
  handle_connected-Balanced :
      (ed : ClientDispatcher) → Balanced ed → IfDone Balanced (handle_connected_event ready ed)
  unfolding handle_connected_event
  handle_connected-Balanced ed b =
      then-Balanced _ ed (start_peer_monitor ready) (notify-Same ready _ _ ed)
        (start_monitor-Same ready) b

  handle_disconnected-Balanced :
      (e : DisconnectedError) (ed : ClientDispatcher)
      → Balanced ed
      → IfDone Balanced (handle_disconnected_event ready e ed)
  unfolding handle_disconnected_event
  handle_disconnected-Balanced e ed b =
      let ed1 = close_connection ready ed in
      then-Balanced _ ed1 close_peer_monitor (notify-Same ready _ _ ed1) monitor-Same
        (close_connection-Balanced ready ed b)

  handle_register-Balanced :
      (reg : ConnectionReg) (ed : ClientDispatcher)
      → Balanced ed
      → Balanced (handle_register_connection_event reg ed).0
  unfolding handle_register_connection_event
  handle_register-Balanced reg ed b = ground (arith, b)

  -- A handler of the service dispatcher does not touch the connections.
  kept-Balanced :
      (e : Event) (ed : ClientDispatcher)
      → Balanced ed
      → IfDone
          (λ (r : ClientDispatcher × ClientReply). Balanced r.0)
          (Handlers.handle lib e ed.base >>= λ r. done (record ed { base = r.0 }, replied r.1))
  kept-Balanced e ed b =
      IfDone->>= (λ _. Unit {0}) (λ (r : ClientDispatcher × ClientReply). Balanced r.0)
        (Handlers.handle lib e ed.base) _ (IfDone-any _) (λ r _. b)

  based-Balanced :
      (e : Event) (ed : ClientDispatcher)
      → Balanced ed
      → IfDone (λ r. Balanced r.0) (handle lib ready (service_event e) ed)
  unfolding handle
  based-Balanced Registrations.stop ed b = handle_stop-Balanced ed b
  based-Balanced (Registrations.register_block r) ed b =
      kept-Balanced (Registrations.register_block r) ed b
  based-Balanced (Registrations.register_filtered_block r) ed b =
      kept-Balanced (Registrations.register_filtered_block r) ed b
  based-Balanced (Registrations.register_chaincode r) ed b =
      kept-Balanced (Registrations.register_chaincode r) ed b
  based-Balanced (Registrations.register_tx_status r) ed b =
      kept-Balanced (Registrations.register_tx_status r) ed b
  based-Balanced (Registrations.unregister r) ed b = kept-Balanced (Registrations.unregister r) ed b
  based-Balanced Registrations.transfer ed b = kept-Balanced Registrations.transfer ed b
  based-Balanced Registrations.stop_and_transfer ed b =
      kept-Balanced Registrations.stop_and_transfer ed b
  based-Balanced Registrations.registration_info ed b =
      kept-Balanced Registrations.registration_info ed b
  based-Balanced (Registrations.block_event r) ed b =
      kept-Balanced (Registrations.block_event r) ed b
  based-Balanced (Registrations.filtered_block_event r url) ed b =
      kept-Balanced (Registrations.filtered_block_event r url) ed b

  answered-Balanced :
      (m : Outcome ClientDispatcher) (r : ClientReply)
      → IfDone Balanced m
      → IfDone (λ (x : ClientDispatcher × ClientReply). Balanced x.0) (m >>= λ d. done (d, r))
  answered-Balanced m r h =
      IfDone->>= Balanced (λ (x : ClientDispatcher × ClientReply). Balanced x.0) m _ h (λ d b. b)

  handle-Balanced :
      (e : ClientEvent) (ed : ClientDispatcher)
      → Balanced ed
      → IfDone (λ r. Balanced r.0) (handle lib ready e ed)
  unfolding handle
  handle-Balanced stop_event ed b = handle_stop-Balanced ed b
  handle-Balanced (connect_event s) ed b = handle_connect-Balanced s ed b
  handle-Balanced disconnect_event ed b = handle_disconnect-Balanced ed b
  handle-Balanced connected_event ed b = answered-Balanced _ _ (handle_connected-Balanced ed b)
  handle-Balanced (disconnected_event e) ed b =
      answered-Balanced _ _ (handle_disconnected-Balanced e ed b)
  handle-Balanced (register_connection_event reg) ed b = handle_register-Balanced reg ed b
  handle-Balanced (service_event e) ed b = based-Balanced e ed b

  -- If the dispatcher starts with every connection but the held one closed, and comes to rest after
  -- any events, then again every connection that was opened has been closed, once and in the order of
  -- the opening, but for the one that it holds.
  pub run-Balanced :
      (es : List ClientEvent) (ed : ClientDispatcher)
      → Balanced ed
      → IfDone Balanced (run lib ready es ed)
  unfolding run
  run-Balanced [] ed b = b
  run-Balanced (e ∷ es) ed b =
      IfDone-if Balanced (Dispatcher.state_eq ed.base.state Dispatcher.stopped) _ _ (λ _. b)
        λ _.
          IfDone->>= (λ (r : ClientDispatcher × ClientReply). Balanced r.0) Balanced
            (handle lib ready e ed) _ (handle-Balanced e ed b) λ r b1. run-Balanced es r.0 b1
