-- ===== src/EventClient/Dispatcher.antt =====
-- pkg/fab/events/client/dispatcher/dispatcher.go. A connection is a number; the state also keeps the
-- connections on which `Receive` was started and those on which `Close` was called, in this order,
-- and the same of the goroutines that monitor the peer.

pub mod Connections
use fabric_sdk_go_gm.Common.{
  ℕ, suc, ◌+◌, Bool, true, false, List, [], ◌∷◌, ◌++◌, Option, none, some, ◌==◌, if◌then◌else◌,
}
use fabric_sdk_go_gm.Common.Int.{ℤ, pos, negsuc}
use fabric_sdk_go_gm.Common.Text.{Text}
use fabric_sdk_go_gm.Common.Outcome.{Outcome, done, panics, ◌>>=◌, closed_channel}
use fabric_sdk_go_gm.Selection.{Peer}
use fabric_sdk_go_gm.Service.Registrations.{Event, Reply}
use fabric_sdk_go_gm.Service.Registrations
use fabric_sdk_go_gm.Service.Dispatcher
use fabric_sdk_go_gm.Service.Start.{event_ch}
use fabric_sdk_go_gm.Service.Handlers
use fabric_sdk_go_gm.EventClient.{
  Answer, ok, err, Surroundings, ConnectError, dispatcher_error, outside_error, no_peers,
  connection_already_closed, registration_exists, DisconnectedError, ConnectionEvent,
  ConnectionChannel,
}

-- ConnectionReg: `none` is a nil channel.
pub record ConnectionReg : Type 0 where
  pub eventch : Option ℕ

pub record ClientDispatcher : Type 0 where
  pub base : Dispatcher.Dispatcher
  pub peer_monitor_period : ℤ
  pub connection : Option ℕ
  pub connection_registration : Option ConnectionReg
  pub peer_monitor_done : Option ℕ
  pub peer : Option Peer
  pub connection_chans : ℕ → ConnectionChannel
  pub received : List ℕ
  pub closed : List ℕ
  pub monitors : ℕ
  pub monitors_closed : List ℕ

pub data ClientReply : Type 0 where
  nothing : ClientReply
  answered : Option ConnectError → ClientReply
  connection_registered : ConnectionReg → ClientReply
  replied : Reply → ClientReply

abbrev pub ClientHandled : Type 0
ClientHandled = Outcome (ClientDispatcher × ClientReply)

unfoldable pub update_chan : (ℕ → ConnectionChannel) → ℕ → ConnectionChannel → ℕ → ConnectionChannel
update_chan s c v j = if c == j then v else s j

abbrev pub set_connected_peer : Option Peer → ClientDispatcher → ClientDispatcher
set_connected_peer peer ed = record ed { peer = peer }

unfoldable pub clear_connection_registration : ClientDispatcher → Outcome ClientDispatcher
clear_connection_registration ed = elim ed.connection_registration [
  | none ↦ done ed
  | some reg ↦ elim reg.eventch [
    | none ↦ panics closed_channel
    | some c ↦
        if (ed.connection_chans c).closed
        then panics closed_channel
        else done (record ed {
          connection_registration = none;
          connection_chans =
              update_chan ed.connection_chans c (record (ed.connection_chans c) { closed = true });
        })
  ]
]

-- The monitor of the peer is told to end.
unfoldable pub close_peer_monitor : ClientDispatcher → ClientDispatcher
close_peer_monitor ed = elim ed.peer_monitor_done [
  | none ↦ ed
  | some d ↦ record ed { peer_monitor_done = none; monitors_closed = ed.monitors_closed ++ d ∷ [] }
]

unfoldable pub handle_stop_event : ClientDispatcher → ClientHandled
handle_stop_event ed = clear_connection_registration ed >>= (λ ed1.
    let ed2 = close_peer_monitor ed1 in
    Handlers.handle_stop_event ed2.base >>= (λ r. done (record ed2 { base = r.0 }, replied r.1)))

-- The connection that is to be opened: the peers, the peer, and its connection.
unfoldable pub open_connection :
    Surroundings → ClientDispatcher → ClientDispatcher × Option ConnectError
open_connection s ed = elim s.get_peers [
  | err e ↦ (ed, some (outside_error e))
  | ok [] ↦ (ed, some no_peers)
  | ok (p ∷ ps) ↦ elim (s.resolve (p ∷ ps)) [
    | err e ↦ (ed, some (outside_error e))
    | ok peer ↦ elim (s.provide peer) [
      | err e ↦ (ed, some (outside_error e))
      | ok conn ↦ (
        set_connected_peer (some peer)
            (record ed { connection = some conn; received = ed.received ++ conn ∷ [] }),
        none,
      )
    ]
  ]
]

unfoldable pub handle_connect_event :
    Surroundings → ClientDispatcher → ClientDispatcher × Option ConnectError
handle_connect_event s ed = elim ed.connection [
  | some _ ↦ (ed, none)
  | none ↦ elim (event_ch ed.base) [
    | some e ↦ (ed, some (dispatcher_error e))
    | none ↦ open_connection s ed
  ]
]

unfoldable pub handle_disconnect_event : ClientDispatcher → ClientDispatcher × Option ConnectError
handle_disconnect_event ed = elim ed.connection [
  | none ↦ (ed, some connection_already_closed)
  | some conn ↦ (
    set_connected_peer none (record ed { connection = none; closed = ed.closed ++ conn ∷ [] }),
    none,
  )
]

unfoldable pub handle_register_connection_event :
    ConnectionReg → ClientDispatcher → ClientDispatcher × ClientReply
handle_register_connection_event reg ed = elim ed.connection_registration [
  | some _ ↦ (ed, answered (some registration_exists))
  | none ↦ (record ed { connection_registration = some reg }, connection_registered reg)
]

module _ (ready : ℕ → ℕ → Bool) where
  -- The send that gives up at once. A nil channel is never ready.
  unfoldable pub notify : Option ℕ → ConnectionEvent → ClientDispatcher → Outcome ClientDispatcher
  notify none e ed = done ed
  notify (some c) e ed =
      let ch = ed.connection_chans c in
      if ch.closed
      then panics closed_channel
      else done (record ed {
        connection_chans = update_chan ed.connection_chans c (record ch {
          log = if ready c ch.tries then ch.log ++ e ∷ [] else ch.log;
          tries = ch.tries + 1;
        });
      })

  abbrev pub eventch_of : Option ConnectionReg → Option ℕ
  eventch_of none = none
  eventch_of (some reg) = reg.eventch

  unfoldable pub start_peer_monitor : ClientDispatcher → ClientDispatcher
  start_peer_monitor ed = elim ed.peer_monitor_period [
    | pos (suc n) ↦ record ed { peer_monitor_done = some ed.monitors; monitors = ed.monitors + 1 }
    | _ ↦ ed
  ]

  unfoldable pub handle_connected_event : ClientDispatcher → Outcome ClientDispatcher
  handle_connected_event ed =
      notify (eventch_of ed.connection_registration) (record { connected = true; error = none }) ed
      >>= (λ ed1. done (start_peer_monitor ed1))

  -- The connection is closed, but the connected peer stays.
  unfoldable pub close_connection : ClientDispatcher → ClientDispatcher
  close_connection ed = elim ed.connection [
    | none ↦ ed
    | some conn ↦ record ed { connection = none; closed = ed.closed ++ conn ∷ [] }
  ]

  unfoldable pub handle_disconnected_event :
      DisconnectedError → ClientDispatcher → Outcome ClientDispatcher
  handle_disconnected_event e ed =
      let ed1 = close_connection ed in
      notify (eventch_of ed1.connection_registration) (record { connected = false; error = some e })
        ed1
      >>= (λ ed2. done (close_peer_monitor ed2))

  -- `disconnected`, a tick of the monitor, with the answers of the discovery service and of the peer
  -- resolver. No other event comes between its two events.
  unfoldable pub disconnect :
      Text → ClientDispatcher → Outcome (ClientDispatcher × Option ConnectError)
  disconnect forced ed = elim (event_ch ed.base) [
    | some e ↦ done (ed, some (dispatcher_error e))
    | none ↦
        let (ed1, e) = handle_disconnect_event ed in
        elim e [
          | some x ↦ done (ed1, some x)
          | none ↦
              handle_disconnected_event (record { cause = forced; fatal = false }) ed1
              >>= (λ ed2. done (ed2, none))
        ]
  ]

  unfoldable pub disconnected :
      Text
      → Answer (List Peer)
      → (List Peer → Peer → Bool)
      → ClientDispatcher
      → Outcome (ClientDispatcher × Bool)
  disconnected forced peers should_disconnect ed = elim ed.peer [
    | none ↦ done (ed, false)
    | some peer ↦ elim peers [
      | err e ↦ done (ed, false)
      | ok ps ↦
          if should_disconnect ps peer
          then disconnect forced ed >>= (λ r. done (r.0, elim r.1 [ none ↦ true | some _ ↦ false ]))
          else done (ed, false)
    ]
  ]

-- The events of the client's dispatcher.
pub data ClientEvent : Type 0 where
  stop_event : ClientEvent
  connect_event : Surroundings → ClientEvent
  disconnect_event : ClientEvent
  connected_event : ClientEvent
  disconnected_event : DisconnectedError → ClientEvent
  register_connection_event : ConnectionReg → ClientEvent
  service_event : Event → ClientEvent

-- The handler that the table holds for the event: the stop of the service dispatcher is overridden,
-- and its other handlers are kept.
unfoldable pub handle :
    Handlers.Library → (ℕ → ℕ → Bool) → ClientEvent → ClientDispatcher → ClientHandled
handle lib ready stop_event ed = handle_stop_event ed
handle lib ready (connect_event s) ed =
    let r = handle_connect_event s ed in done (r.0, answered r.1)
handle lib ready disconnect_event ed =
    let r = handle_disconnect_event ed in done (r.0, answered r.1)
handle lib ready connected_event ed = handle_connected_event ready ed >>= λ ed1. done (ed1, nothing)
handle lib ready (disconnected_event e) ed =
    handle_disconnected_event ready e ed >>= λ ed1. done (ed1, nothing)
handle lib ready (register_connection_event reg) ed = done (handle_register_connection_event reg ed)
handle lib ready (service_event Registrations.stop) ed = handle_stop_event ed
handle lib ready (service_event e) ed =
    Handlers.handle lib e ed.base >>= λ r. done (record ed { base = r.0 }, replied r.1)

unfoldable pub run :
    Handlers.Library
    → (ℕ → ℕ → Bool)
    → List ClientEvent
    → ClientDispatcher
    → Outcome ClientDispatcher
run lib ready [] ed = done ed
run lib ready (e ∷ es) ed =
    if Dispatcher.state_eq ed.base.state Dispatcher.stopped
    then done ed
    else handle lib ready e ed >>= λ r. run lib ready es r.0
