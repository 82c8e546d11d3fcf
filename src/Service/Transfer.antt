-- ===== src/Service/Transfer.antt =====
-- A snapshot of a dispatcher's registrations, handed to a new dispatcher.
use mathlib.Core.List.{append_assoc, append-nil}
use fabric_sdk_go_gm.Common.{
  ◌≡◌, ◌≢◌, ◌⊎◌, refl, ◌∙◌, ap, List, [], ◌∷◌, ◌++◌, Option, none, some, ltb, if◌then◌else◌,
  Bool-cases, inl, inr,
}
use fabric_sdk_go_gm.Common.Int.{pos}
use fabric_sdk_go_gm.Common.Text.{Text}
use fabric_sdk_go_gm.Common.Map.{lookup, values, IsMap, insert_missing, IsMap-front, IsMap-key}
use fabric_sdk_go_gm.Common.Outcome.{Returns}
use fabric_sdk_go_gm.Fab.Channels.{Channels}
use fabric_sdk_go_gm.Service.Registrations.{
  BlockReg, FilteredBlockReg, ChaincodeReg, TxStatusReg, from_block_reg, from_fblock_reg,
  from_cc_reg, from_tx_reg, Error, Snapshot, Reply, snapshot_taken, failed,
  dispatcher_already_stopped,
}
use fabric_sdk_go_gm.Service.Dispatcher.{
  Dispatcher, State, initial, started, stopped, Params, new, new_snapshot, set_state, max_uint64,
  update_last_block_num, register_block_event, register_filtered_block_event, register_cc_event,
  register_tx_status_event,
}
use fabric_sdk_go_gm.Service.Start.{
  ok, as_block_registrations, as_fblock_registrations, as_cc_registrations, as_tx_registrations,
  set_snapshot, init_block_registrations, init_filtered_block_registrations, init_cc_registrations,
  init_tx_status_registrations, init_registrations, init_last_block_num, start,
}
use fabric_sdk_go_gm.Service.Handlers.{handle_stop_and_transfer_event}
use fabric_sdk_go_gm.Service.Live.Stopping.{
  handle_stop_and_transfer_event_lem, stop_and_transfer_refused,
}
use fabric_sdk_go_gm.Service.Live.{Alive}
use fabric_sdk_go_gm.Service.Live.Registering.{eventchs, IsLive, tx_key, cc_key}

as_from_block : (rs : List BlockReg) → as_block_registrations (from_block_reg rs) ≡ ok rs
unfolding as_block_registrations from_block_reg
as_from_block [] = refl
as_from_block (r ∷ rs) = rw (as_from_block rs)

as_from_fblock : (rs : List FilteredBlockReg) → as_fblock_registrations (from_fblock_reg rs) ≡ ok rs
unfolding as_fblock_registrations from_fblock_reg
as_from_fblock [] = refl
as_from_fblock (r ∷ rs) = rw (as_from_fblock rs)

as_from_cc : (rs : List ChaincodeReg) → as_cc_registrations (from_cc_reg rs) ≡ ok rs
unfolding as_cc_registrations from_cc_reg
as_from_cc [] = refl
as_from_cc (r ∷ rs) = rw (as_from_cc rs)

as_from_tx : (rs : List TxStatusReg) → as_tx_registrations (from_tx_reg rs) ≡ ok rs
unfolding as_tx_registrations from_tx_reg
as_from_tx [] = refl
as_from_tx (r ∷ rs) = rw (as_from_tx rs)

init_blocks :
    (rs : List BlockReg) (ed : Dispatcher)
    → init_block_registrations rs ed
      ≡ record ed { block_registrations = ed.block_registrations ++ rs }
unfolding init_block_registrations register_block_event
init_blocks [] ed = rw (append-nil ed.block_registrations)
init_blocks (r ∷ rs) ed = init_blocks rs _ ∙ rw (append_assoc ed.block_registrations (r ∷ []) rs)

init_fblocks :
    (rs : List FilteredBlockReg) (ed : Dispatcher)
    → init_filtered_block_registrations rs ed
      ≡ record ed { filtered_block_registrations = ed.filtered_block_registrations ++ rs }
unfolding init_filtered_block_registrations register_filtered_block_event
init_fblocks [] ed = rw (append-nil ed.filtered_block_registrations)
init_fblocks (r ∷ rs) ed =
    init_fblocks rs _ ∙ rw (append_assoc ed.filtered_block_registrations (r ∷ []) rs)

register_new_tx :
    (k : Text) (reg : TxStatusReg) (ed : Dispatcher)
    → k ≡ tx_key reg
    → lookup k ed.tx_registrations ≡ none
    → register_tx_status_event reg ed
      ≡ (record ed { tx_registrations = ed.tx_registrations ++ (k, reg) ∷ [] }, none)
unfolding register_tx_status_event
register_new_tx k reg ed key e =
    let e' : lookup (tx_key reg) ed.tx_registrations ≡ none = rw (← key) e in
    rw (key, e', register_tx_status_event, insert_missing (tx_key reg) reg ed.tx_registrations e')

register_new_cc :
    (k : Text) (reg : ChaincodeReg) (ed : Dispatcher)
    → k ≡ cc_key reg
    → lookup k ed.cc_registrations ≡ none
    → register_cc_event reg ed
      ≡ (record ed { cc_registrations = ed.cc_registrations ++ (k, reg) ∷ [] }, none)
unfolding register_cc_event
register_new_cc k reg ed key e =
    let e' : lookup (cc_key reg) ed.cc_registrations ≡ none = rw (← key) e in
    rw (key, e', register_cc_event, insert_missing (cc_key reg) reg ed.cc_registrations e')

init_tx_step :
    (r : TxStatusReg) (rs : List TxStatusReg) (ed ed1 : Dispatcher)
    → register_tx_status_event r ed ≡ (ed1, none)
    → init_tx_status_registrations (r ∷ rs) ed ≡ init_tx_status_registrations rs ed1
unfolding init_tx_status_registrations
init_tx_step r rs ed ed1 e =
    ap
      (λ (q : Dispatcher × Option Error). elim q.1 [
        | none ↦ init_tx_status_registrations rs q.0
        | some x ↦ (q.0, some x)
      ])
      e

init_txs :
    (m : List (Text × TxStatusReg)) (ed : Dispatcher)
    → IsMap tx_key (ed.tx_registrations ++ m)
    → init_tx_status_registrations (values m) ed
      ≡ (record ed { tx_registrations = ed.tx_registrations ++ m }, none)
unfolding init_tx_status_registrations values
init_txs [] ed h = rw (append-nil ed.tx_registrations)
init_txs ((k, r) ∷ m) ed h =
    let key = IsMap-key tx_key k r ed.tx_registrations m h in
    let fresh = IsMap-front tx_key k r ed.tx_registrations m h in
    let again = append_assoc ed.tx_registrations ((k, r) ∷ []) m in
    init_tx_step r (values m) ed _ (register_new_tx k r ed key fresh)
    ∙ (init_txs m _ (rw again h) ∙ rw again)

init_cc_step :
    (r : ChaincodeReg) (rs : List ChaincodeReg) (ed ed1 : Dispatcher)
    → register_cc_event r ed ≡ (ed1, none)
    → init_cc_registrations (r ∷ rs) ed ≡ init_cc_registrations rs ed1
unfolding init_cc_registrations
init_cc_step r rs ed ed1 e =
    ap
      (λ (q : Dispatcher × Option Error). elim q.1 [
        | none ↦ init_cc_registrations rs q.0
        | some x ↦ (q.0, some x)
      ])
      e

init_ccs :
    (m : List (Text × ChaincodeReg)) (ed : Dispatcher)
    → IsMap cc_key (ed.cc_registrations ++ m)
    → init_cc_registrations (values m) ed
      ≡ (record ed { cc_registrations = ed.cc_registrations ++ m }, none)
unfolding init_cc_registrations values
init_ccs [] ed h = rw (append-nil ed.cc_registrations)
init_ccs ((k, r) ∷ m) ed h =
    let key = IsMap-key cc_key k r ed.cc_registrations m h in
    let fresh = IsMap-front cc_key k r ed.cc_registrations m h in
    let again = append_assoc ed.cc_registrations ((k, r) ∷ []) m in
    init_cc_step r (values m) ed _ (register_new_cc k r ed key fresh)
    ∙ (init_ccs m _ (rw again h) ∙ rw again)

-- The parameters with a snapshot of `ed` in them.
abbrev pub with_snapshot : Dispatcher → Params → Params
with_snapshot ed p = record p {
  initial_last_block_num = ed.last_block_num;
  initial_block_registrations = ed.block_registrations;
  initial_filtered_block_registrations = ed.filtered_block_registrations;
  initial_cc_registrations = values ed.cc_registrations;
  initial_tx_status_registrations = values ed.tx_registrations;
}

set_snapshot-new_snapshot :
    (ed : Dispatcher) (p : Params) → set_snapshot (new_snapshot ed) p ≡ ok (with_snapshot ed p)
unfolding set_snapshot new_snapshot
set_snapshot-new_snapshot ed p = rw (
  as_from_block ed.block_registrations,
  as_from_fblock ed.filtered_block_registrations,
  as_from_cc (values ed.cc_registrations),
  as_from_tx (values ed.tx_registrations),
)

-- What a dispatcher holds after its start from the snapshot.
abbrev pub restored : Dispatcher → Params → Channels → Dispatcher
restored ed p s = record (new (with_snapshot ed p) s) {
  state = started;
  last_block_num = if ltb 0 ed.last_block_num then ed.last_block_num else max_uint64;
  block_registrations = ed.block_registrations;
  filtered_block_registrations = ed.filtered_block_registrations;
  cc_registrations = ed.cc_registrations;
  tx_registrations = ed.tx_registrations;
}

-- The new dispatcher in the middle of `Start`, before and after `initRegistrations`.
abbrev starting : Dispatcher → Params → Channels → Dispatcher
starting ed p s = record (new (with_snapshot ed p) s) { state = started }

abbrev registered_again : Dispatcher → Params → Channels → Dispatcher
registered_again ed p s = record (starting ed p s) {
  block_registrations = ed.block_registrations;
  filtered_block_registrations = ed.filtered_block_registrations;
  cc_registrations = ed.cc_registrations;
  tx_registrations = ed.tx_registrations;
}

init_registrations_lem :
    (ed : Dispatcher) (p : Params) (s : Channels)
    → IsLive ed
    → init_registrations (starting ed p s) ≡ (registered_again ed p s, none)
unfolding init_registrations new
init_registrations_lem ed p s v =
    ap
      (λ (q : Dispatcher × Option Error). elim q.1 [
        | none ↦ init_tx_status_registrations (values ed.tx_registrations) q.0
        | some x ↦ (q.0, some x)
      ])
      (ap
          (λ x.
            init_cc_registrations (values ed.cc_registrations)
              (init_filtered_block_registrations ed.filtered_block_registrations x))
          (init_blocks ed.block_registrations (starting ed p s))
        ∙ (ap (init_cc_registrations (values ed.cc_registrations))
              (init_fblocks ed.filtered_block_registrations _)
            ∙ init_ccs ed.cc_registrations _ v.cc_map))
    ∙ init_txs ed.tx_registrations _ v.tx_map

init_last_block_num_lem :
    (ed : Dispatcher) (p : Params) (s : Channels)
    → init_last_block_num (registered_again ed p s) ≡ restored ed p s
unfolding init_last_block_num update_last_block_num new
init_last_block_num_lem ed p s = elim (Bool-cases (ltb 0 ed.last_block_num)) [
  | inl e ↦ rw e
  | inr e ↦ rw e
]

pub restored-IsLive :
    (ed : Dispatcher) (p : Params) (s : Channels)
    → Alive (eventchs ed) s
    → p.event_consumer_timeout ≢ pos 0
    → IsLive ed
    → IsLive (restored ed p s)
unfolding new
restored-IsLive ed p s a h v = record {
  alive = a;
  tx_map = v.tx_map;
  cc_map = v.cc_map;
  compiled = v.compiled;
  patient = h;
}

-- A snapshot of a live dispatcher is accepted as an option, and a new dispatcher with that option
-- starts without an error and with exactly the registrations of the old one. It takes over the
-- number of the last block unless that is 0: then it starts as if no block had come.
pub start-new_snapshot :
    (ed : Dispatcher) (p : Params) (s : Channels)
    → IsLive ed
    → (set_snapshot (new_snapshot ed) p ≡ ok (with_snapshot ed p))
      × (start (new (with_snapshot ed p) s) ≡ (restored ed p s, none))
unfolding start new set_state
start-new_snapshot ed p s v = (
  set_snapshot-new_snapshot ed p,
  ap
        (λ (q : Dispatcher × Option Error). elim q.1 [
          | some x ↦ (q.0, some x)
          | none ↦ (init_last_block_num q.0, none)
        ])
        (init_registrations_lem ed p s v)
      ∙ ap (λ d. (d, none)) (init_last_block_num_lem ed p s),
)

State-cases : (s : State) → (s ≡ started) ⊎ (s ≢ started)
State-cases initial = inr (λ e. cc)
State-cases started = inl refl
State-cases stopped = inr (λ e. cc)

-- What a stop and transfer leaves: a stopped dispatcher without a registration, no channel closed, and
-- a snapshot with which a new dispatcher starts with the registrations and the last block.
pub record Handed (ed : Dispatcher) (p : Params) (r : Dispatcher × Reply) : Type 0 where
  pub stops : r.0.state ≡ stopped
  pub none_left : eventchs r.0 ≡ []
  pub open_still : r.0.chans ≡ ed.chans
  pub snapshot : Snapshot
  pub replied : r.1 ≡ snapshot_taken snapshot
  pub params : Params
  pub accepted : set_snapshot snapshot p ≡ ok params
  pub starts : start (new params r.0.chans) ≡ (restored ed p ed.chans, none)

abbrev pub HandsOver : Dispatcher → Params → Dispatcher × Reply → Type 0
HandsOver ed p r =
    ((ed.state ≡ started) × Handed ed p r)
    ⊎ ((ed.state ≢ started) × (r ≡ (ed, failed dispatcher_already_stopped)))

-- The stop and transfer of a live dispatcher returns. One that is started is then stopped, has no
-- registration and has closed no channel, and a new dispatcher with the snapshot in the reply starts
-- with exactly its registrations and with the number of its last block unless that is 0. One that is
-- not started stays as it is and refuses.
pub handle_stop_and_transfer_event-HandsOver :
    (ed : Dispatcher) (p : Params)
    → IsLive ed
    → Returns (HandsOver ed p) (handle_stop_and_transfer_event ed)
unfolding values
handle_stop_and_transfer_event-HandsOver ed p v = elim (State-cases ed.state) [
  | inl e ↦
      let (accepted, starts) = start-new_snapshot ed p ed.chans v in
      rw (handle_stop_and_transfer_event_lem ed e) (
        inl (
          e,
          record {
            stops = refl;
            none_left = refl;
            open_still = refl;
            snapshot = new_snapshot ed;
            replied = refl;
            params = with_snapshot ed p;
            accepted = accepted;
            starts = starts;
          },
        ))
  | inr n ↦ rw (stop_and_transfer_refused ed n) (inr (n, refl))
]
