-- ===== src/Service/Live/Reaching.antt =====
-- The states that the dispatchers of a client reach: a first one is started, handles events, and hands
-- its registrations over to the next one.
use mathlib.Core.List.{Nodup-nil, not-mem-nil}
use fabric_sdk_go_gm.Common.{◌≡◌, ◌≢◌, sym, ap, ◌∙◌, subst, [], Option, none}
use fabric_sdk_go_gm.Common.Map.{values}
use fabric_sdk_go_gm.Common.Int.{pos}
use fabric_sdk_go_gm.Common.Outcome.{done, Returns}
use fabric_sdk_go_gm.Fab.Channels.{Channels}
use fabric_sdk_go_gm.Service.Registrations.{
  Event, stop_and_transfer, Reply, Snapshot, snapshot_taken, Error,
}
use fabric_sdk_go_gm.Service.Dispatcher.{
  Dispatcher, started, new, Params, set_update_last_block_info_only, new_snapshot,
}
use fabric_sdk_go_gm.Service.Start.{ok, set_snapshot, start}
use fabric_sdk_go_gm.Service.Handlers.{Library, handle}
use fabric_sdk_go_gm.Service.Live.Registering.{IsLive}
use fabric_sdk_go_gm.Service.Live.Stopping.{handle_stop_and_transfer_event_lem}
use fabric_sdk_go_gm.Service.Live.Handling.{Admissible, Lives, handle-Lives}
use fabric_sdk_go_gm.Service.Transfer.{with_snapshot, restored-IsLive, start-new_snapshot}

-- The parameters of a dispatcher that is not set up from a snapshot.
abbrev pub without_registrations : Params → Params
without_registrations p = record p {
  initial_block_registrations = [];
  initial_filtered_block_registrations = [];
  initial_cc_registrations = [];
  initial_tx_status_registrations = [];
}

-- The dispatchers that are reached: a new one that has started, one that handles an admissible event
-- or is told to skip the next block, and one that has started with the snapshot with which a started
-- one was stopped.
pub data Reached (lib : Library) : Dispatcher → Type 0 where
  starts :
      (p : Params) (s : Channels) {ed : Dispatcher}
      → p.event_consumer_timeout ≢ pos 0
      → start (new (without_registrations p) s) ≡ (ed, none)
      → Reached lib ed
  handles :
      {ed ed' : Dispatcher} {r : Reply} (e : Event)
      → Reached lib ed
      → Admissible lib e ed
      → handle lib e ed ≡ done (ed', r)
      → Reached lib ed'
  skips :
      {ed ed' : Dispatcher}
      → Reached lib ed
      → set_update_last_block_info_only ed ≡ ed'
      → Reached lib ed'
  takes_over :
      {old stopped_one ed : Dispatcher} {snapshot : Snapshot} {q : Params} (p : Params)
      → Reached lib old
      → old.state ≡ started
      → handle lib stop_and_transfer old ≡ done (stopped_one, snapshot_taken snapshot)
      → p.event_consumer_timeout ≢ pos 0
      → set_snapshot snapshot p ≡ ok q
      → start (new q stopped_one.chans) ≡ (ed, none)
      → Reached lib ed

-- A dispatcher with nothing but the number of the last block, the snapshot of which is the parameters
-- without registrations.
abbrev blank : Params → Channels → Dispatcher
blank p s = record (new (without_registrations p) s) { last_block_num = p.initial_last_block_num }

blank-IsLive : (p : Params) (s : Channels) → p.event_consumer_timeout ≢ pos 0 → IsLive (blank p s)
unfolding new values
blank-IsLive p s h = record {
  alive = record { distinct = Nodup-nil; all_open = λ c m. absurd (not-mem-nil m) };
  tx_map = tt;
  cc_map = tt;
  compiled = tt;
  patient = h;
}

start-IsLive :
    (p : Params) (s : Channels)
    → p.event_consumer_timeout ≢ pos 0
    → IsLive (start (new (without_registrations p) s)).0
unfolding new values
start-IsLive p s h =
    let v = blank-IsLive p s h in
    let (_, e) = start-new_snapshot (blank p s) (without_registrations p) s v in
    subst (λ (r : Dispatcher × Option Error). IsLive r.0) (sym e)
      (restored-IsLive (blank p s) (without_registrations p) s v.alive h v)

takes_over-IsLive :
    (lib : Library) (old stopped_one : Dispatcher) (snapshot : Snapshot) (p q : Params)
    → IsLive old
    → old.state ≡ started
    → handle lib stop_and_transfer old ≡ done (stopped_one, snapshot_taken snapshot)
    → p.event_consumer_timeout ≢ pos 0
    → set_snapshot snapshot p ≡ ok q
    → IsLive (start (new q stopped_one.chans)).0
unfolding handle
takes_over-IsLive lib old stopped_one snapshot p q v e h t a =
    let (accepted, started_again) = start-new_snapshot old p old.chans v in
    let same = sym (handle_stop_and_transfer_event_lem old e) ∙ h in
    let same_snapshot : new_snapshot old ≡ snapshot = cc in
    let same_chans : old.chans ≡ stopped_one.chans = cc in
    let same_params : with_snapshot old p ≡ q =
      let one : ok (with_snapshot old p) ≡ ok q =
        sym accepted ∙ (ap (λ x. set_snapshot x p) same_snapshot ∙ a) in
      cc in
    subst (λ x. IsLive (start (new x stopped_one.chans)).0) same_params
      (subst (λ x. IsLive (start (new (with_snapshot old p) x)).0) same_chans
        (subst (λ (r : Dispatcher × Option Error). IsLive r.0) (sym started_again)
          (restored-IsLive old p old.chans v.alive t v)))

skips-IsLive : (ed : Dispatcher) → IsLive ed → IsLive (set_update_last_block_info_only ed)
unfolding set_update_last_block_info_only
skips-IsLive ed v = record {
  alive = v.alive;
  tx_map = v.tx_map;
  cc_map = v.cc_map;
  compiled = v.compiled;
  patient = v.patient;
}

pub Reached-IsLive : (lib : Library) {ed : Dispatcher} → Reached lib ed → IsLive ed
Reached-IsLive lib (starts p s h e) =
    subst (λ (r : Dispatcher × Option Error). IsLive r.0) e (start-IsLive p s h)
Reached-IsLive lib (handles {ed = ed} e r a h) =
    subst (Returns Lives) h (handle-Lives lib e ed (Reached-IsLive lib r) a)
Reached-IsLive lib (skips {ed = ed} r e) = subst IsLive e (skips-IsLive ed (Reached-IsLive lib r))
Reached-IsLive lib
      (takes_over {old = old} {stopped_one = stopped_one} {snapshot = snapshot} {q = q} p r s h t a
        e) =
    subst (λ (r : Dispatcher × Option Error). IsLive r.0) e
      (takes_over-IsLive lib old stopped_one snapshot p q (Reached-IsLive lib r) s h t a)

-- In every state that is reached from new dispatchers without registrations and with a consumer timeout
-- other than 0, by their start, by admissible events, by the skip of a block, and by a stop and transfer
-- with the start of the next dispatcher from the snapshot, each further admissible event is handled: the
-- handler returns, without a panic and without waiting for ever, and every registration keeps an open
-- channel of its own.
pub reachable-handle-Lives :
    (lib : Library) (ed : Dispatcher) (e : Event)
    → Reached lib ed
    → Admissible lib e ed
    → Returns Lives (handle lib e ed)
reachable-handle-Lives lib ed e r a = handle-Lives lib e ed (Reached-IsLive lib r) a
