-- ===== src/EventClient/Client/Monitor/Racing.antt =====
-- client.go: the monitor and a close of the client at the same time.
use fabric_sdk_go_gm.Common.{
  ◌≡◌, ◌≢◌, refl, sym, ◌∙◌, subst, Bool, true, false, Option, none, some, Option-cases, inl, inr,
  arith, if◌then◌else◌,
}
use fabric_sdk_go_gm.Common.Outcome.{
  Outcome, done, panics, blocked, closed_channel, Returns, IfDone, IfDone->>=, IfDone-if,
  IfDone-option, IfDone-any, Returns-mono,
}
use fabric_sdk_go_gm.Service.Start.{event_ch}
use fabric_sdk_go_gm.EventClient.{ConnectionEvent, ConnectionChannel}
use fabric_sdk_go_gm.EventClient.Dispatcher.{handle_stop_event, handle_disconnect_event}
use fabric_sdk_go_gm.EventClient.Client.{Client, close_client, close, close_connect_event_chan}
use fabric_sdk_go_gm.EventClient.Client.Closing.{IsClosable, Shut, close_client-Shut}
use fabric_sdk_go_gm.EventClient.Client.Monitor.{notify_connect_event_chan, monitor_event}

-- There is a subscriber's channel, and it is closed.
abbrev IsGone : Option ConnectionChannel → Type 0
IsGone none = ⊥
IsGone (some ch) = ch.closed ≡ true

abbrev ChannelGone : Client → Type 0
ChannelGone c = IsGone c.conn_event_ch

close_chan-ChannelGone :
    (c : Client) → c.conn_event_ch ≢ none → IfDone ChannelGone (close_connect_event_chan c)
unfolding close_connect_event_chan
close_chan-ChannelGone c n = elim (Option-cases c.conn_event_ch) [
  | inl e ↦ absurd (n e)
  | inr (ch, e) ↦
      subst
        (λ o. IfDone ChannelGone (elim o [
          | none ↦ done c
          | some x ↦
              if x.closed
              then panics closed_channel
              else done (record c { conn_event_ch = some (record x { closed = true }) })
        ]))
        (sym e) (IfDone-if ChannelGone ch.closed _ _ (λ _. tt) (λ _. refl))
]

close-ChannelGone :
    (c : Client)
    → c.stopped ≡ false
    → c.conn_event_ch ≢ none
    → IfDone (λ r. ChannelGone r.0) (close_client c)
unfolding close_client close
close-ChannelGone c s n =
    IfDone-if (λ r. ChannelGone r.0) c.stopped _ _ (λ t. let z : true ≡ false = sym t ∙ s in cc)
      λ _.
        IfDone->>= ChannelGone (λ r. ChannelGone r.0)
          (close_connect_event_chan (record c { stopped = true })) _
          (close_chan-ChannelGone (record c { stopped = true }) n)
          λ c1 k.
            IfDone-option (λ r. ChannelGone r.0) (event_ch c1.ed.base) _ _
              (IfDone->>= (λ _. Unit {0}) (λ r. ChannelGone r.0)
                (handle_stop_event (handle_disconnect_event c1.ed).0) _ (IfDone-any _) (λ r _. k))
              (λ e. k)

notify-gone :
    (event_taken : Bool) (event : ConnectionEvent) (c : Client)
    → ChannelGone c
    → notify_connect_event_chan event_taken event c ≡ panics closed_channel
unfolding notify_connect_event_chan
notify-gone event_taken event c g = elim (Option-cases c.conn_event_ch) [
  | inl e ↦ elim (subst IsGone e g) [ ]
  | inr (ch, e) ↦ let closed = subst IsGone e g in ground (arith, e, closed)
]

gone-panics :
    (reconn event_taken : Bool) (event : ConnectionEvent) (c : Client)
    → ChannelGone c
    → monitor_event reconn event_taken event c ≡ panics closed_channel
unfolding monitor_event
gone-panics reconn event_taken event c g = rw (notify-gone event_taken event c g) refl

returned : {A : Type 0} (P Q : A → Type 0) (m : Outcome A) → Returns Q m → IfDone P m → Returns P m
returned P Q (done a) r h = h
returned P Q (panics p) r h = r
returned P Q blocked r h = r

-- If a client with a subscriber that can be closed is closed after the monitor has seen that it is
-- not stopped, then the close returns, and the monitor, whatever event it has and whether or not the
-- subscriber takes events, panics at the closed channel.
pub close-panics :
    (reconn event_taken : Bool) (event : ConnectionEvent) (c : Client)
    → IsClosable c
    → c.conn_event_ch ≢ none
    → Returns
        (λ r. monitor_event reconn event_taken event r.0 ≡ panics closed_channel)
        (close_client c)
close-panics reconn event_taken event c v n =
    Returns-mono (λ r. ChannelGone r.0)
      (λ r. monitor_event reconn event_taken event r.0 ≡ panics closed_channel) (close_client c)
      (λ r g. gone-panics reconn event_taken event r.0 g)
      (returned (λ r. ChannelGone r.0) Shut (close_client c) (close_client-Shut c v)
        (close-ChannelGone c v.usable.not_stopped n))
