-- ===== src/EventClient/Client.antt =====
-- pkg/fab/events/client/client.go. A request to the dispatcher is handled at once: `Submit` and the
-- handler are one step, and no event of another goroutine comes between two requests of one call.
pub mod Attempts
pub mod Retrying
pub mod Closing
pub mod Idle
pub mod Monitor
use fabric_sdk_go_gm.Common.{
  ℕ, zero, suc, ◌+◌, Bool, true, false, ◌&&◌, List, Option, none, some, ltb, leb, ◌==◌,
  if◌then◌else◌,
}
use fabric_sdk_go_gm.Common.Text.{Text}
use fabric_sdk_go_gm.Common.Outcome.{Outcome, done, panics, ◌>>=◌, closed_channel}
use fabric_sdk_go_gm.Service.Registrations.{
  Snapshot, Reply, no_reply, registered, failed, stopped, snapshot_taken, info, Error,
}
use fabric_sdk_go_gm.Service.Dispatcher
use fabric_sdk_go_gm.Service.Start.{event_ch}
use fabric_sdk_go_gm.Service.Handlers.{
  handle_registration_info_event, handle_transfer_event, handle_stop_and_transfer_event,
}
use fabric_sdk_go_gm.EventClient.{
  Surroundings, ConnectError, dispatcher_error, outside_error, client_closed, not_disconnected,
  submit_failed, attempts_exceeded, ConnectionChannel,
}
use fabric_sdk_go_gm.EventClient.Dispatcher.{
  ClientDispatcher, ClientReply, nothing, answered, connection_registered, replied,
  handle_connect_event, handle_disconnect_event, handle_register_connection_event,
  handle_connected_event, handle_stop_event,
}

pub data ConnectionState : Type 0 where
  disconnected connecting connected : ConnectionState

abbrev pub state_eq : ConnectionState → ConnectionState → Bool
state_eq disconnected disconnected = true
state_eq connecting connecting = true
state_eq connected connected = true
state_eq _ _ = false

-- `registered_once` says whether `registerOnce` has run, `conn_event_ch` is the subscriber's channel
-- of the options, `conn_event` the channel that the client monitors.
pub record Client : Type 0 where
  pub ed : ClientDispatcher
  pub connection_state : ConnectionState
  pub stopped : Bool
  pub registered_once : Bool
  pub conn_event : Option ℕ
  pub conn_event_ch : Option ConnectionChannel
  pub max_conn_attempts : ℕ

-- The compare-and-swap, with its success.
unfoldable pub set_connection_state : ConnectionState → ConnectionState → Client → Client × Bool
set_connection_state current next c =
    if state_eq c.connection_state current
    then (record c { connection_state = next }, true)
    else (c, false)

abbrev pub channel_of : ℕ → ClientReply → Option ℕ
channel_of made (connection_registered reg) = some made
channel_of made (answered e) = none
channel_of made nothing = none
channel_of made (replied r) = none

-- `registerConnectionEvent`, with the new channel; `none` is the result with an error.
unfoldable pub register_connection_event : ℕ → Client → Client × Option ℕ
register_connection_event made c =
    let (ed1, reply) = handle_register_connection_event (record { eventch = some made }) c.ed in
    if c.stopped then (c, none) else elim (event_ch c.ed.base) [
      | some e ↦ (c, none)
      | none ↦ (record c { ed = ed1 }, channel_of made reply)
    ]

-- The function of `registerOnce`. It tests an error that is nil at this point, so an error of the
-- registration changes nothing.
unfoldable pub register_once : ℕ → Client → Client
register_once made c =
    let (c1, eventch) = register_connection_event made c in
    if c.registered_once then c else record c1 { registered_once = true; conn_event = eventch }

-- `t`, after an error of the handler: it waits for the answer for a limited time.
unfoldable pub undo_connect : Client → Client
undo_connect c =
    let c1 : Client = elim (event_ch c.ed.base) [
      | some e ↦ c
      | none ↦ record c { ed = (handle_disconnect_event c.ed).0 }
    ] in
    (set_connection_state connecting disconnected c1).0

module _ (ready : ℕ → ℕ → Bool) where
  unfoldable pub submit_connected : Client → Outcome Client
  submit_connected c = elim (event_ch c.ed.base) [
    | some e ↦ done c
    | none ↦ handle_connected_event ready c.ed >>= (λ ed1. done (record c { ed = ed1 }))
  ]

  -- The end of `connect`, once the dispatcher has the connection.
  unfoldable pub after_connect :
      Option (Option Text) → Client → Outcome (Client × Option ConnectError)
  after_connect (some (some e)) c = done (undo_connect c, some (outside_error e))
  after_connect _ c =
      submit_connected (set_connection_state connecting connected c).0 >>= λ c1. done (c1, none)

  unfoldable pub submit_connect : Surroundings → Client → Outcome (Client × Option ConnectError)
  submit_connect s c = elim (event_ch c.ed.base) [
    | some e ↦ done (c, some submit_failed)
    | none ↦ elim (handle_connect_event s c.ed).1 [
      | some x ↦ done (
        record c { ed = (handle_connect_event s c.ed).0; connection_state = disconnected },
        some x,
      )
      | none ↦
          after_connect s.after_connect
            (register_once s.made (record c { ed = (handle_connect_event s c.ed).0 }))
    ]
  ]

  unfoldable pub connect : Surroundings → Client → Outcome (Client × Option ConnectError)
  connect s c =
      let (c1, was_disconnected) = set_connection_state disconnected connecting c in
      if c.stopped
      then done (c, some client_closed)
      else if was_disconnected
      then submit_connect s c1
      else done (c, some not_disconnected)

  -- The loop of `connectWithRetry`: `s n` is what the surroundings answer to attempt n, from 0 on, and
  -- `none` means that the fuel ran out. A limit of 0 is no limit.
  unfoldable pub connect_with_retry :
      (ℕ → Surroundings) → ℕ → ℕ → ℕ → Client → Outcome (Option (Client × Option ConnectError))
  connect_with_retry s max_attempts zero attempts c = done none
  connect_with_retry s max_attempts (suc fuel) attempts c =
      if c.stopped
      then done (some (c, some client_closed))
      else connect (s attempts) c >>= (λ r. elim r.1 [
        | none ↦ done (some (r.0, none))
        | some e ↦
            if ltb 0 max_attempts && leb max_attempts (attempts + 1)
            then done (some (r.0, some attempts_exceeded))
            else connect_with_retry s max_attempts fuel (attempts + 1) (r.0)
      ])

unfoldable pub close_connect_event_chan : Client → Outcome Client
close_connect_event_chan c = elim c.conn_event_ch [
  | none ↦ done c
  | some ch ↦
      if ch.closed
      then panics closed_channel
      else done (record c { conn_event_ch = some (record ch { closed = true }) })
]

-- `close`, with the request that stops the dispatcher, and its reply if it was submitted.
unfoldable pub close :
    (ClientDispatcher → Outcome (ClientDispatcher × ClientReply))
    → Client
    → Outcome (Client × Option ClientReply)
close stop_handler c =
    if c.stopped
    then done (c, none)
    else close_connect_event_chan (record c { stopped = true }) >>= (λ c1.
      elim (event_ch c1.ed.base) [
        | some e ↦ done (c1, none)
        | none ↦
            stop_handler (handle_disconnect_event c1.ed).0
            >>= (λ r. done (record c1 { ed = r.0; connection_state = disconnected }, some r.1))
      ])

unfoldable pub close_client : Client → Outcome (Client × Option ClientReply)
close_client c = close handle_stop_event c

-- `CloseIfIdle`.
unfoldable pub close_if_idle : Client → Outcome (Client × Bool)
close_if_idle c = elim (event_ch c.ed.base) [
  | some e ↦ done (c, false)
  | none ↦
      if ltb 0 (handle_registration_info_event c.ed.base).total_registrations
      then done (c, false)
      else close_client c >>= (λ r. done (r.0, true))
]

-- The requests of `TransferRegistrations`; the client's dispatcher does not override their handlers.
unfoldable pub transfer_registrations : Bool → Client → Outcome (Client × Option ClientReply)
transfer_registrations false c = elim (event_ch c.ed.base) [
  | some e ↦ done (c, some (replied (failed e)))
  | none ↦
      handle_transfer_event c.ed.base
      >>= (λ r. done (record c { ed = record (c.ed) { base = r.0 } }, some (replied r.1)))
]
transfer_registrations true c =
    close
      (λ ed.
        handle_stop_and_transfer_event ed.base
        >>= (λ r. done (record ed { base = r.0 }, replied r.1)))
      c
