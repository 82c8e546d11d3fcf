-- ===== src/EventClient/Client/Attempts.antt =====
-- client.go: an attempt to connect, and the attempts of `connectWithRetry`.
use fabric_sdk_go_gm.Common.{
  ℕ, ◌≡◌, ◌≢◌, refl, sym, ap, ◌∙◌, subst, Bool, true, false, Option, none, some, arith,
}
use fabric_sdk_go_gm.Common.Text.{Text}
use fabric_sdk_go_gm.Common.Outcome.{done, ◌>>=◌, Returns, Returns->>=, Returns-if, Returns-option}
use fabric_sdk_go_gm.Service.Registrations.{Error}
use fabric_sdk_go_gm.Service.Dispatcher
use fabric_sdk_go_gm.Service.Start.{event_ch}
use fabric_sdk_go_gm.EventClient.{Surroundings, ConnectError, dispatcher_error, ConnectionEvent}
use fabric_sdk_go_gm.EventClient.Dispatcher.{
  ClientDispatcher, update_chan, open_connection, handle_connect_event, handle_disconnect_event,
  handle_register_connection_event, notify, eventch_of, start_peer_monitor, handle_connected_event,
}
use fabric_sdk_go_gm.EventClient.Client.{
  disconnected, connecting, connected, Client, set_connection_state, register_connection_event,
  register_once, undo_connect, submit_connected, after_connect, submit_connect, connect,
}

abbrev pub AllOpen : ClientDispatcher → Type 0
AllOpen ed = (j : ℕ) → (ed.connection_chans j).closed ≡ false

-- The dispatcher is started, no channel of connection events is closed, and so is not the client.
pub record IsUsable (c : Client) : Type 0 where
  pub open_chans : AllOpen c.ed
  pub is_started : c.ed.base.state ≡ Dispatcher.started
  pub not_stopped : c.stopped ≡ false

-- What a step of the dispatcher leaves as it was.
abbrev Keeps : ClientDispatcher → ClientDispatcher → Type 0
Keeps ed ed' = AllOpen ed' × ((ed'.base ≡ ed.base) × (ed'.connection ≡ ed.connection))

notify-Keeps :
    (ready : ℕ → ℕ → Bool) (o : Option ℕ) (e : ConnectionEvent) (ed : ClientDispatcher)
    → AllOpen ed
    → Returns (Keeps ed) (notify ready o e ed)
unfolding notify update_chan
notify-Keeps ready none e ed a = (a, (refl, refl))
notify-Keeps ready (some k) e ed a =
    Returns-if (Keeps ed) (ed.connection_chans k).closed _ _ (λ x. let y = a k in cc)
      (λ _. ((λ j. let x = a k in let y = a j in ground arith), (refl, refl)))

monitor-Keeps :
    (ready : ℕ → ℕ → Bool) (ed : ClientDispatcher)
    → AllOpen ed
    → Keeps ed (start_peer_monitor ready ed)
unfolding start_peer_monitor
monitor-Keeps ready ed a = ground (arith, a)

handle_connected-Keeps :
    (ready : ℕ → ℕ → Bool) (ed : ClientDispatcher)
    → AllOpen ed
    → Returns (Keeps ed) (handle_connected_event ready ed)
unfolding handle_connected_event
handle_connected-Keeps ready ed a =
    Returns->>= (Keeps ed) (Keeps ed)
      (notify ready (eventch_of ready ed.connection_registration) _ ed) _
      (notify-Keeps ready _ _ ed a)
      λ d k. let m = monitor-Keeps ready d k.0 in (m.0, (m.1.0 ∙ k.1.0, m.1.1 ∙ k.1.1))

abbrev pub IsSome : Option ℕ → Type 0
IsSome none = ⊥
IsSome (some k) = Unit

abbrev pub IsConnected : ClientDispatcher → Type 0
IsConnected ed = IsSome ed.connection

-- The request to connect: with no error there is a connection.
abbrev Connects : ClientDispatcher → ClientDispatcher × Option ConnectError → Type 0
Connects ed q =
    (q.0.base ≡ ed.base)
    × ((q.0.connection_chans ≡ ed.connection_chans) × (q.1 ≡ none → IsConnected q.0))

open_connection-Connects :
    (s : Surroundings) (ed : ClientDispatcher) → Connects ed (open_connection s ed)
unfolding open_connection
open_connection-Connects s ed = ground arith

guarded-Connects :
    (o : Option ℕ) (x : Option Error) (ed : ClientDispatcher)
    (q : ClientDispatcher × Option ConnectError)
    → ed.connection ≡ o
    → Connects ed q
    → Connects ed (elim o [
      | some _ ↦ (ed, none)
      | none ↦ elim x [ some e ↦ (ed, some (dispatcher_error e)) | none ↦ q ]
    ])
guarded-Connects none none ed q h k = k
guarded-Connects none (some e) ed q h k = (refl, (refl, λ f. cc))
guarded-Connects (some c) x ed q h k = (refl, (refl, λ f. rw h tt))

handle_connect-Connects :
    (s : Surroundings) (ed : ClientDispatcher) → Connects ed (handle_connect_event s ed)
unfolding handle_connect_event
handle_connect-Connects s ed =
    guarded-Connects ed.connection (event_ch ed.base) ed (open_connection s ed) refl
      (open_connection-Connects s ed)

-- The registration for connection events touches the registration and the client's channel only.
abbrev Registers : Client → Client → Type 0
Registers c c' =
    (c'.ed.base ≡ c.ed.base)
    × ((c'.ed.connection_chans ≡ c.ed.connection_chans)
        × ((c'.ed.connection ≡ c.ed.connection)
            × ((c'.stopped ≡ c.stopped) × (c'.connection_state ≡ c.connection_state))))

register_once-Registers : (made : ℕ) (c : Client) → Registers c (register_once made c)
unfolding register_once register_connection_event handle_register_connection_event
register_once-Registers made c = ground arith

undo_connect-lem :
    (c : Client)
    → c.connection_state ≡ connecting
    → ((undo_connect c).ed.base ≡ c.ed.base)
      × (((undo_connect c).ed.connection_chans ≡ c.ed.connection_chans)
          × (((undo_connect c).stopped ≡ c.stopped)
              × ((undo_connect c).connection_state ≡ disconnected)))
unfolding undo_connect set_connection_state handle_disconnect_event
undo_connect-lem c e = ground arith

-- What an attempt from the state Disconnected leaves: without an error the client is connected, and
-- with an error it is disconnected again.
pub record Attempted (r : Client × Option ConnectError) : Type 0 where
  pub usable : IsUsable r.0
  pub connects : r.1 ≡ none → (r.0.connection_state ≡ connected) × IsConnected r.0.ed
  pub gives_up : r.1 ≢ none → r.0.connection_state ≡ disconnected

-- A usable client's dispatcher takes events.
event_ch-open : (c : Client) → IsUsable c → (x : Error) → event_ch c.ed.base ≢ some x
unfolding event_ch
event_ch-open c u x e = let h = u.is_started in ground arith

submit_connected-Attempted :
    (ready : ℕ → ℕ → Bool) (c : Client)
    → IsUsable c
    → c.connection_state ≡ connected
    → IsConnected c.ed
    → Returns Attempted (submit_connected ready c >>= λ c1. done (c1, none))
unfolding submit_connected
submit_connected-Attempted ready c u e k =
    Returns->>= (λ c1. Attempted (c1, none)) Attempted (submit_connected ready c) _
      (Returns-option (λ c1. Attempted (c1, none)) (event_ch c.ed.base) _ _
        (λ _.
          Returns->>= (Keeps c.ed) (λ c1. Attempted (c1, none)) (handle_connected_event ready c.ed)
            _ (handle_connected-Keeps ready c.ed u.open_chans)
            λ ed1 h. record {
              usable = record {
                open_chans = h.0;
                is_started = rw (h.1.0) u.is_started;
                not_stopped = u.not_stopped;
              };
              connects = λ _. (e, subst IsSome (sym h.1.1) k);
              gives_up = λ f. absurd (f refl);
            })
        (λ x n. absurd (event_ch-open c u x n)))
      (λ c1 a. a)

set_connected :
    (c : Client)
    → c.connection_state ≡ connecting
    → (set_connection_state connecting connected c).0 ≡ record c { connection_state = connected }
unfolding set_connection_state
set_connected c e = ground arith

finish_connect-Attempted :
    (ready : ℕ → ℕ → Bool) (c : Client)
    → IsUsable c
    → c.connection_state ≡ connecting
    → IsConnected c.ed
    → Returns Attempted (
        submit_connected ready (set_connection_state connecting connected c).0 >>= λ c1.
        done (c1, none))
finish_connect-Attempted ready c u e k =
    subst (λ d. Returns Attempted (submit_connected ready d >>= λ c1. done (c1, none)))
      (sym (set_connected c e))
      (submit_connected-Attempted ready (record c { connection_state = connected })
        (record {
          open_chans = u.open_chans;
          is_started = u.is_started;
          not_stopped = u.not_stopped;
        })
        refl k)

after_connect-Attempted :
    (ready : ℕ → ℕ → Bool) (h : Option (Option Text)) (c : Client)
    → IsUsable c
    → c.connection_state ≡ connecting
    → IsConnected c.ed
    → Returns Attempted (after_connect ready h c)
unfolding after_connect
after_connect-Attempted ready (some (some x)) c u e k =
    let l = undo_connect-lem c e in
    record {
      usable = record {
        open_chans = λ j. ap (λ f. (f j).closed) l.1.0 ∙ u.open_chans j;
        is_started = ap (λ b. b.state) l.0 ∙ u.is_started;
        not_stopped = l.1.1.0 ∙ u.not_stopped;
      };
      connects = λ f. cc;
      gives_up = λ _. l.1.1.1;
    }
after_connect-Attempted ready (some none) c u e k = finish_connect-Attempted ready c u e k
after_connect-Attempted ready none c u e k = finish_connect-Attempted ready c u e k

submit_connect-Attempted :
    (ready : ℕ → ℕ → Bool) (s : Surroundings) (c : Client)
    → IsUsable c
    → c.connection_state ≡ connecting
    → Returns Attempted (submit_connect ready s c)
unfolding submit_connect
submit_connect-Attempted ready s c u e =
    let q = handle_connect_event s c.ed in
    let f = handle_connect-Connects s c.ed in
    let w : IsUsable (record c { ed = q.0 }) = record {
      open_chans = λ j. ap (λ g. (g j).closed) f.1.0 ∙ u.open_chans j;
      is_started = ap (λ b. b.state) f.0 ∙ u.is_started;
      not_stopped = u.not_stopped;
    } in
    Returns-option Attempted (event_ch c.ed.base) _ _
      (λ _.
        Returns-option Attempted q.1 _ _
          (λ n.
            let c1 = record c { ed = q.0 } in
            let l = register_once-Registers s.made c1 in
            after_connect-Attempted ready s.after_connect (register_once s.made c1)
              (record {
                open_chans = λ j. ap (λ g. (g j).closed) l.1.0 ∙ w.open_chans j;
                is_started = ap (λ b. b.state) l.0 ∙ w.is_started;
                not_stopped = l.1.1.1.0 ∙ w.not_stopped;
              })
              (l.1.1.1.1 ∙ e) (subst IsSome (sym l.1.1.0) (f.1.1 n)))
          (λ x n. record {
            usable = record {
              open_chans = w.open_chans;
              is_started = w.is_started;
              not_stopped = w.not_stopped;
            };
            connects = λ h. cc;
            gives_up = λ _. refl;
          }))
      (λ x n. absurd (event_ch-open c u x n))

starting_to_connect :
    (c : Client)
    → c.connection_state ≡ disconnected
    → set_connection_state disconnected connecting c
      ≡ (record c { connection_state = connecting }, true)
unfolding set_connection_state
starting_to_connect c e = ground arith

-- An attempt of a usable client that is disconnected returns: without an error it is connected, and
-- its dispatcher has a connection; with an error it is disconnected.
pub connect-Attempted :
    (ready : ℕ → ℕ → Bool) (s : Surroundings) (c : Client)
    → IsUsable c
    → c.connection_state ≡ disconnected
    → Returns Attempted (connect ready s c)
unfolding connect
connect-Attempted ready s c u e =
    Returns-if Attempted c.stopped _ _ (λ f. let g = u.not_stopped in let z : ⊥ = cc in absurd z)
      λ _. rw (starting_to_connect c e) (
        submit_connect-Attempted ready s (record c { connection_state = connecting })
          (record {
            open_chans = u.open_chans;
            is_started = u.is_started;
            not_stopped = u.not_stopped;
          })
          refl)
