-- ===== src/EventClient/Client/Monitor.antt =====
-- client.go: the goroutine that monitors the connection, and the reconnect. `event_taken` says whether
-- the subscriber takes an event; a subscriber that does not makes the goroutine wait for ever.
pub mod Racing
pub mod Tests
use fabric_sdk_go_gm.Common.{
  ℕ, ◌+◌, Bool, true, false, List, [], ◌∷◌, ◌++◌, Option, none, some, if◌then◌else◌,
}
use fabric_sdk_go_gm.Common.Text.{Text}
use fabric_sdk_go_gm.Common.Outcome.{Outcome, done, panics, blocked, ◌>>=◌, closed_channel, deref}
use fabric_sdk_go_gm.EventClient.{Surroundings, ConnectionEvent, ConnectionChannel}
use fabric_sdk_go_gm.EventClient.Client.{
  Client, connected, connecting, disconnected, set_connection_state, connect_with_retry,
  close_client,
}

-- What a `go` statement of the monitor starts.
pub data Task : Type 0 where
  closing reconnecting : Task

unfoldable pub notify_connect_event_chan : Bool → ConnectionEvent → Client → Outcome Client
notify_connect_event_chan event_taken event c = elim c.conn_event_ch [
  | none ↦ done c
  | some ch ↦
      if ch.closed
      then panics closed_channel
      else if event_taken
      then done (record c {
        conn_event_ch = some (record ch { log = ch.log ++ event ∷ []; tries = ch.tries + 1 });
      })
      else blocked
]

-- The client after an event, what was started, and whether the loop goes on.
abbrev pub Round : Type 0
Round = Client × List Task × Bool

-- A disconnect, where the client reconnects.
unfoldable pub begin_reconnect : ConnectionEvent → Client → Outcome Round
begin_reconnect event c =
    let (c1, was_connected) = set_connection_state connected disconnected c in
    if was_connected
    then (deref event.error >>= λ e.
        if e.fatal then done (c1, closing ∷ [], false) else done (c1, reconnecting ∷ [], true))
    else done ((set_connection_state connecting disconnected c).0, [], true)

-- A round of `monitorConnection` after its test of `Stopped`.
unfoldable pub monitor_event : Bool → Bool → ConnectionEvent → Client → Outcome Round
unfolding begin_reconnect
monitor_event reconn event_taken event c = notify_connect_event_chan event_taken event c >>= λ c1.
    if event.connected
    then done (c1, [], true)
    else if reconn
    then begin_reconnect event c1
    else done (c1, closing ∷ [], false)

unfoldable pub monitor_round : Bool → Bool → ConnectionEvent → Client → Outcome Round
unfolding monitor_event
monitor_round reconn event_taken event c =
    if c.stopped then done (c, [], false) else monitor_event reconn event_taken event c

-- `reconnect`: the handler that is called before, where there is one, with its error if it has one;
-- `none` is the result if the fuel of connectWithRetry runs out.
unfoldable pub reconnect :
    (ℕ → ℕ → Bool)
    → Option (Option Text)
    → (ℕ → Surroundings)
    → ℕ
    → ℕ
    → Client
    → Outcome (Option Client)
reconnect ready (some (some e)) s max_attempts fuel c = done (some c)
reconnect ready _ s max_attempts fuel c = connect_with_retry ready s max_attempts fuel 0 c >>= λ o.
    elim o [
      | none ↦ done none
      | some (c1, none) ↦ done (some c1)
      | some (c1, some e) ↦
          if c1.stopped then done (some c1) else close_client c1 >>= λ r. done (some (r.0))
    ]
