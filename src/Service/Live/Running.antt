-- ===== src/Service/Live/Running.antt =====
-- The loop of the dispatcher on events that ask for no registration.
use fabric_sdk_go_gm.Common.{◌<◌, List, [], ◌∷◌, All}
use fabric_sdk_go_gm.Common.Outcome.{
  Outcome, done, panics, blocked, IfDone, Returns, Returns->>=, Returns-if,
}
use fabric_sdk_go_gm.Service.Registrations.{Event, Reply}
use fabric_sdk_go_gm.Service.Dispatcher.{Dispatcher, stopped, state_eq, max_uint64}
use fabric_sdk_go_gm.Service.Handlers.{Library, handle, run}
use fabric_sdk_go_gm.Service.Order.Handling.{event_number}
use fabric_sdk_go_gm.Service.Order.Running.{IsOrdered, handle-IsOrdered}
use fabric_sdk_go_gm.Service.Live.Registering.{IsLive}
use fabric_sdk_go_gm.Service.Live.Handling.{Admissible, Lives, handle-Lives}

both :
    {A : Type 0} (P Q : A → Type 0) (m : Outcome A)
    → Returns P m
    → IfDone Q m
    → Returns (λ a. P a × Q a) m
both P Q (done a) h k = (h, k)
both P Q (panics p) h k = h
both P Q blocked h k = h

-- An event that any dispatcher may be given, with the number of its block below MaxUint64.
abbrev pub AlwaysAdmissible : Library → Event → Type 0
AlwaysAdmissible lib e = (event_number e < max_uint64) × ((ed : Dispatcher) → Admissible lib e ed)

abbrev pub GoesOn : Dispatcher → Type 0
GoesOn ed = IsLive ed × IsOrdered ed

-- If a live dispatcher whose channels are in order is given any events that every dispatcher may be
-- given, with the numbers of their blocks below MaxUint64, its loop handles them all without a panic
-- and without waiting for ever, or ends because it is stopped; the dispatcher is live after that, and
-- its channels are in order.
pub run-GoesOn :
    (lib : Library) (es : List Event) (ed : Dispatcher)
    → All (AlwaysAdmissible lib) es
    → GoesOn ed
    → Returns (λ r. GoesOn r.0) (run lib es ed)
unfolding run
run-GoesOn lib [] ed a g = g
run-GoesOn lib (e ∷ es) ed a g =
    Returns-if (λ (r : Dispatcher × List Reply). GoesOn r.0) (state_eq ed.state stopped) _ _
      (λ _. g)
      λ _.
        Returns->>= (λ (r : Dispatcher × Reply). GoesOn r.0) (λ r. GoesOn r.0) (handle lib e ed) _
          (both Lives (λ r. IsOrdered r.0) (handle lib e ed) (handle-Lives lib e ed g.0 (a.0.1 ed))
            (handle-IsOrdered lib e ed a.0.0 g.1))
          λ r h.
            Returns->>= (λ (r : Dispatcher × List Reply). GoesOn r.0) (λ r. GoesOn r.0)
              (run lib es r.0) _ (run-GoesOn lib es r.0 a.1 h) (λ q k. k)
