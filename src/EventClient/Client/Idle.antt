-- ===== src/EventClient/Client/Idle.antt =====
-- client.go: `CloseIfIdle`, by the number of registrations that the dispatcher reports.
use mathlib.Core.List.{List, map}
use fabric_sdk_go_gm.Common.{
  suc, ◌≡◌, ◌≢◌, refl, sym, ap, ◌∙◌, ◌⊎◌, inl, inr, Bool, true, false, [], ◌∷◌, ◌++◌, Option, none,
  some, arith, length, length-append, length-map, ltb,
}
use fabric_sdk_go_gm.Common.Text.{Text}
use fabric_sdk_go_gm.Common.Map.{values}
use fabric_sdk_go_gm.Common.Outcome.{Returns, Returns->>=, Returns-if, Returns-option}
use fabric_sdk_go_gm.Service.Dispatcher
use fabric_sdk_go_gm.Service.Start.{event_ch}
use fabric_sdk_go_gm.Service.Handlers.{handle_registration_info_event}
use fabric_sdk_go_gm.Service.Live.Registering.{eventchs}
use fabric_sdk_go_gm.EventClient.Dispatcher.{ClientReply}
use fabric_sdk_go_gm.EventClient.Client.{Client, close_client, close_if_idle}
use fabric_sdk_go_gm.EventClient.Client.Closing.{IsClosable, Shut, close_client-Shut, event_ch-open}

length-values : {A : Type 0} (m : List (Text × A)) → length (values m) ≡ length m
unfolding values
length-values [] = refl
length-values (p ∷ m) = ap suc (length-values m)

-- The number of registrations that is reported counts each registration's channel once.
total-eventchs :
    (ed : Dispatcher.Dispatcher)
    → (handle_registration_info_event ed).total_registrations ≡ length (eventchs ed)
unfolding handle_registration_info_event
total-eventchs ed =
    let bs = map (λ r. r.eventch) ed.block_registrations in
    let fs = map (λ r. r.eventch) ed.filtered_block_registrations in
    let ts = map (λ r. r.eventch) (values ed.tx_registrations) in
    let cs = map (λ r. r.eventch) (values ed.cc_registrations) in
    omega (
      arith,
      length-append bs (fs ++ (ts ++ cs)),
      length-append fs (ts ++ cs),
      length-append ts cs,
      length-map (λ r. r.eventch) ed.block_registrations,
      length-map (λ r. r.eventch) ed.filtered_block_registrations,
      length-map (λ r. r.eventch) (values ed.tx_registrations),
      length-map (λ r. r.eventch) (values ed.cc_registrations),
      length-values ed.tx_registrations,
      length-values ed.cc_registrations,
    )

-- What `CloseIfIdle` leaves: without a registration a client that is shut as by `Close`, or else the
-- client as it is.
abbrev pub ClosesIfIdle : Client → Client × Bool → Type 0
ClosesIfIdle c r =
    ((length (eventchs c.ed.base) ≡ 0)
      × ((r.1 ≡ true) × ((answer : Option ClientReply) × Shut (r.0, answer))))
    ⊎ ((length (eventchs c.ed.base) ≢ 0) × (r ≡ (c, false)))

-- `CloseIfIdle` of a client that can be closed returns. Without a registration it answers true, and
-- the client is stopped and disconnected and has no connection, its dispatcher is stopped, and it
-- refuses to connect; with a registration the client stays as it is and the answer is false.
pub close_if_idle-ClosesIfIdle :
    (c : Client) → IsClosable c → Returns (ClosesIfIdle c) (close_if_idle c)
unfolding close_if_idle
close_if_idle-ClosesIfIdle c v =
    let t = total-eventchs c.ed.base in
    Returns-option (ClosesIfIdle c) (event_ch c.ed.base) _ _
      (λ _.
        Returns-if (ClosesIfIdle c)
          (ltb 0 (handle_registration_info_event c.ed.base).total_registrations) _ _
          (λ e.
            let h : length (eventchs c.ed.base) ≢ 0 = λ z. ground (arith, e, t, z) in inr (h, refl))
          (λ e. Returns->>= Shut (ClosesIfIdle c) (close_client c) _ (close_client-Shut c v) λ r q.
            let h : length (eventchs c.ed.base) ≡ 0 = ground (arith, e, t) in
            inl (h, (refl, (r.1, q)))))
      (λ x n.
        let o = event_ch-open c.ed.base v.usable.is_started in
        let z : none ≡ some x = sym o ∙ n in let w : ⊥ = cc in absurd w)
