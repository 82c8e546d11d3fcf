-- ===== src/EventClient/Client/Closing.antt =====
-- client.go and the dispatcher below it: what closing a client leaves.
use fabric_sdk_go_gm.Common.{
  ℕ, ◌≡◌, ◌≢◌, refl, sym, ap, ◌∙◌, subst, Bool, true, false, [], Option, none, some, arith,
}
use fabric_sdk_go_gm.Common.Outcome.{done, Returns, Returns->>=, Returns-if, Returns-option}
use fabric_sdk_go_gm.Service.Registrations
use fabric_sdk_go_gm.Service.Registrations.{Reply}
use fabric_sdk_go_gm.Service.Dispatcher
use fabric_sdk_go_gm.Service.Start.{event_ch}
use fabric_sdk_go_gm.Service.Handlers
use fabric_sdk_go_gm.Service.Live.Registering.{eventchs, IsLive}
use fabric_sdk_go_gm.Service.Live.Stopping.{Stops, handle_stop_event-Stops}
use fabric_sdk_go_gm.EventClient.{Surroundings, client_closed, ConnectionChannel}
use fabric_sdk_go_gm.EventClient.Dispatcher.{
  ConnectionReg, ClientDispatcher, ClientReply, replied, clear_connection_registration,
  close_peer_monitor, handle_stop_event, handle_disconnect_event,
}
use fabric_sdk_go_gm.EventClient.Client.{
  Client, disconnected, connect, close_connect_event_chan, close, close_client,
}
use fabric_sdk_go_gm.EventClient.Client.Attempts.{AllOpen, IsUsable}

-- A registration for connection events has a channel.
abbrev pub HasChannel : Option ConnectionReg → Type 0
HasChannel none = Unit
HasChannel (some reg) = reg.eventch ≢ none

-- A usable client that can be closed: its dispatcher is live, and what is to be closed is not nil and
-- not closed yet.
pub record IsClosable (c : Client) : Type 0 where
  pub usable : IsUsable c
  pub live : IsLive c.ed.base
  pub has_channel : HasChannel c.ed.connection_registration
  pub subscriber : (ch : ConnectionChannel) → c.conn_event_ch ≡ some ch → ch.closed ≡ false

abbrev Clears : ClientDispatcher → ClientDispatcher → Type 0
Clears ed ed' =
    (ed'.base ≡ ed.base) × ((ed'.connection ≡ ed.connection) × (ed'.connection_registration ≡ none))

clear-Clears :
    (ed : ClientDispatcher)
    → AllOpen ed
    → HasChannel ed.connection_registration
    → Returns (Clears ed) (clear_connection_registration ed)
unfolding clear_connection_registration
clear-Clears ed a h =
    Returns-option (Clears ed) ed.connection_registration _ _ (λ n. (refl, (refl, n)))
      λ reg n.
        let some_channel : reg.eventch ≢ none = subst HasChannel n h in
        Returns-option (Clears ed) reg.eventch _ _ (λ m. absurd (some_channel m))
          λ k _.
            Returns-if (Clears ed) (ed.connection_chans k).closed _ _
              (λ x. let y = a k in let z : ⊥ = cc in absurd z) (λ _. (refl, (refl, refl)))

monitor-Clears :
    (ed : ClientDispatcher) → ed.connection_registration ≡ none → Clears ed (close_peer_monitor ed)
unfolding close_peer_monitor
monitor-Clears ed e = ground (arith, e)

-- What the stop of the client's dispatcher leaves.
pub record Halts (ed : ClientDispatcher) (r : ClientDispatcher × ClientReply) : Type 0 where
  pub state_after : r.0.base.state ≡ Dispatcher.stopped
  pub none_left : eventchs r.0.base ≡ []
  pub unregistered : r.0.connection_registration ≡ none
  pub kept : r.0.connection ≡ ed.connection
  pub answer : r.1 ≡ replied Registrations.stopped

handle_stop-Halts :
    (ed : ClientDispatcher)
    → AllOpen ed
    → HasChannel ed.connection_registration
    → IsLive ed.base
    → ed.base.state ≡ Dispatcher.started
    → Returns (Halts ed) (handle_stop_event ed)
unfolding handle_stop_event
handle_stop-Halts ed a h v e =
    Returns->>= (Clears ed) (Halts ed) (clear_connection_registration ed) _ (clear-Clears ed a h)
      λ ed1 k.
        let ed2 = close_peer_monitor ed1 in
        let m = monitor-Clears ed1 k.1.1 in
        let same : ed.base ≡ ed2.base = sym (m.0 ∙ k.0) in
        Returns->>= (Stops ed2.base) (Halts ed) (Handlers.handle_stop_event ed2.base) _
          (subst (λ b. Returns (Stops b) (Handlers.handle_stop_event b)) same
            (handle_stop_event-Stops ed.base v e))
          λ r q. record {
            state_after = q.state_after;
            none_left = q.none_left;
            unregistered = m.1.1;
            kept = m.1.0 ∙ k.1.0;
            answer = ap replied q.replied;
          }

-- What closing leaves: a stopped client without a connection, whose dispatcher is stopped and has no
-- registration any more. It refuses to connect, and closing it again changes nothing.
pub record Shut (r : Client × Option ClientReply) : Type 0 where
  pub is_stopped : r.0.stopped ≡ true
  pub dispatcher_stopped : r.0.ed.base.state ≡ Dispatcher.stopped
  pub disconnects : r.0.connection_state ≡ disconnected
  pub no_connection : r.0.ed.connection ≡ none
  pub none_left : eventchs r.0.ed.base ≡ []
  pub unregistered : r.0.ed.connection_registration ≡ none
  pub answer : r.1 ≡ some (replied Registrations.stopped)
  pub refuses :
      (ready : ℕ → ℕ → Bool) (s : Surroundings)
      → connect ready s r.0 ≡ done (r.0, some client_closed)
  pub closed_once : close_client r.0 ≡ done (r.0, none)

stopped-refuses :
    (ready : ℕ → ℕ → Bool) (s : Surroundings) (c : Client)
    → c.stopped ≡ true
    → connect ready s c ≡ done (c, some client_closed)
unfolding connect
stopped-refuses ready s c e = ground (arith, e)

stopped-close : (c : Client) → c.stopped ≡ true → close_client c ≡ done (c, none)
unfolding close_client close
stopped-close c e = ground (arith, e)

-- Only the subscriber's channel changes.
abbrev Silenced : Client → Client → Type 0
Silenced c c' = (c'.ed ≡ c.ed) × (c'.stopped ≡ c.stopped)

close_chan-Silenced :
    (c : Client)
    → ((ch : ConnectionChannel) → c.conn_event_ch ≡ some ch → ch.closed ≡ false)
    → Returns (Silenced c) (close_connect_event_chan c)
unfolding close_connect_event_chan
close_chan-Silenced c h =
    Returns-option (Silenced c) c.conn_event_ch _ _ (λ _. (refl, refl))
      λ ch n.
        Returns-if (Silenced c) ch.closed _ _ (λ x. let y = h ch n in let z : ⊥ = cc in absurd z)
          (λ _. (refl, refl))

-- The request to disconnect changes the connection, the peer and the list of closed connections.
abbrev Disconnects : ClientDispatcher → ClientDispatcher → Type 0
Disconnects ed ed' =
    (ed'.base ≡ ed.base)
    × ((ed'.connection_chans ≡ ed.connection_chans)
        × ((ed'.connection_registration ≡ ed.connection_registration) × (ed'.connection ≡ none)))

handle_disconnect-Disconnects :
    (ed : ClientDispatcher) → Disconnects ed (handle_disconnect_event ed).0
unfolding handle_disconnect_event
handle_disconnect-Disconnects ed = ground arith

disconnected-Halts :
    (c : Client)
    → IsClosable c
    → let ed1 = (handle_disconnect_event c.ed).0 in Returns (Halts ed1) (handle_stop_event ed1)
disconnected-Halts c v =
    let ed1 = (handle_disconnect_event c.ed).0 in
    let d = handle_disconnect-Disconnects c.ed in
    handle_stop-Halts ed1 (λ j. ap (λ f. (f j).closed) d.1.0 ∙ v.usable.open_chans j)
      (subst HasChannel (sym d.1.1.0) v.has_channel) (subst IsLive (sym d.0) v.live)
      (ap (λ b. b.state) d.0 ∙ v.usable.is_started)

pub event_ch-open :
    (ed : Dispatcher.Dispatcher) → ed.state ≡ Dispatcher.started → event_ch ed ≡ none
unfolding event_ch
event_ch-open ed e = ground (arith, e)

-- Closing a client that can be closed returns, without a panic and without waiting for ever. The
-- client is stopped and disconnected and has no connection; its dispatcher is stopped and has no
-- registration any more. It then refuses to connect, and closing it again changes nothing.
pub close_client-Shut : (c : Client) → IsClosable c → Returns Shut (close_client c)
unfolding close_client close
close_client-Shut c v =
    Returns-if Shut c.stopped _ _ (λ x. let y = v.usable.not_stopped in let z : ⊥ = cc in absurd z)
      λ _.
        Returns->>= (Silenced (record c { stopped = true })) Shut
          (close_connect_event_chan (record c { stopped = true })) _
          (close_chan-Silenced (record c { stopped = true }) v.subscriber)
          λ c1 k.
            Returns-option Shut (event_ch c1.ed.base) _ _
              (λ _.
                let ed1 = (handle_disconnect_event c1.ed).0 in
                Returns->>= (Halts ed1) Shut (handle_stop_event ed1) _
                  (subst
                    (λ d.
                      Returns (Halts (handle_disconnect_event d).0)
                        (handle_stop_event (handle_disconnect_event d).0))
                    (sym k.0) (disconnected-Halts c v))
                  λ r q. record {
                    is_stopped = k.1;
                    dispatcher_stopped = q.state_after;
                    disconnects = refl;
                    no_connection = q.kept ∙ (handle_disconnect-Disconnects c1.ed).1.1.1;
                    none_left = q.none_left;
                    unregistered = q.unregistered;
                    answer = ap some q.answer;
                    refuses = λ ready s. stopped-refuses ready s _ k.1;
                    closed_once = stopped-close _ k.1;
                  })
              (λ x n.
                let o = event_ch-open c.ed.base v.usable.is_started in
                let p = ap (λ d. event_ch d.base) k.0 in
                let z : none ≡ some x = sym (p ∙ o) ∙ n in let w : ⊥ = cc in absurd w)
