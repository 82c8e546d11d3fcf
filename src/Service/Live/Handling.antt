-- ===== src/Service/Live/Handling.antt =====
-- The handlers on a live dispatcher.
use mathlib.Core.List.{Mem, mem-append_left, mem-append_right}
use fabric_sdk_go_gm.Common.{
  ℕ, ◌≡◌, refl, sym, subst, ◌∙◌, Bool, true, false, map, Option, some, arith, if◌then◌else◌,
}
use fabric_sdk_go_gm.Common.Map.{values}
use fabric_sdk_go_gm.Common.Text.{Text}
use fabric_sdk_go_gm.Common.Outcome.{
  Outcome, done, ◌>>=◌, deref, Returns, Returns->>=, Returns-mono, Returns-option,
}
use fabric_sdk_go_gm.Fab.{Block, BlockHeader, FilteredBlock}
use fabric_sdk_go_gm.Fab.Channels.{Channels, close_all}
use fabric_sdk_go_gm.Service.Registrations.{
  ChaincodeReg, chaincode_reg, tx_status_reg, Event, register_block, register_filtered_block,
  register_chaincode, register_tx_status, unregister, stop, transfer, stop_and_transfer,
  registration_info, block_event, filtered_block_event, Reply, failed, dispatcher_already_stopped,
  snapshot_taken, stopped as stopped_reply,
}
use fabric_sdk_go_gm.Service.Dispatcher.{
  Dispatcher, State, started, stopped, set_state, update_last_block_num, register_cc_event,
  register_tx_status_event, new_snapshot, clear_registrations, clear_block_registrations,
  clear_filtered_block_registrations, clear_tx_registrations, clear_chaincode_registrations,
}
use fabric_sdk_go_gm.Service.FilterBlock.{to_filtered_block}
use fabric_sdk_go_gm.Service.Publish.{publish_block_events}
use fabric_sdk_go_gm.Service.Unregister.{unregister_registration}
use fabric_sdk_go_gm.Service.Handlers.{
  Library, publisher, accept_block, publish_block, publish_filtered_block, handle_block,
  handle_filtered_block, handle_stop_event, handle_stop_and_transfer_event,
  handle_register_cc_event, handle_register_tx_status_event, handle,
}
use fabric_sdk_go_gm.Service.Order.Handling.{reply_to-state}
use fabric_sdk_go_gm.Service.Live.{SameClosed, Alive-SameClosed, Closes, close_all-Returns}
use fabric_sdk_go_gm.Service.Live.Sending.{
  publish_block_events-Returns, publish_filtered_block_events-Returns,
}
use fabric_sdk_go_gm.Service.Live.Registering.{
  eventchs, IsLive, IsFresh, register_block-IsLive, register_filtered_block-IsLive,
  register_tx_status-IsLive, register_cc-IsLive,
}
use fabric_sdk_go_gm.Service.Live.Unregistering.{unregister_registration-IsLive}
use fabric_sdk_go_gm.Service.Live.Stopping.{
  cleared-IsLive, clear_registrations-close_all, handle_transfer_event_lem,
}

-- What an event must bring: a registration has a fresh channel, a block has a header and can be
-- turned into a filtered block, and a filtered block is not nil.
abbrev pub Admissible : Library → Event → Dispatcher → Type 0
Admissible lib (register_block reg) ed = IsFresh reg.eventch ed
Admissible lib (register_filtered_block reg) ed = IsFresh reg.eventch ed
Admissible lib (register_chaincode reg) ed = IsFresh reg.eventch ed
Admissible lib (register_tx_status reg) ed = IsFresh reg.eventch ed
Admissible lib (block_event e) ed =
    (h : BlockHeader) × (f : FilteredBlock) × (e.block.header ≡ some h)
    × (to_filtered_block lib.protos e.block ≡ done f)
Admissible lib (filtered_block_event block url) ed = (f : FilteredBlock) × (block ≡ some f)
Admissible lib _ ed = Unit

abbrev pub Lives : Dispatcher × Reply → Type 0
Lives r = IsLive r.0

-- The registrations, their channels and the parameters are as before.
abbrev SameRegs : Dispatcher → Dispatcher → Type 0
SameRegs ed ed' = ed' ≡ record ed {
  last_block_num = ed'.last_block_num;
  update_last_block_info_only = ed'.update_last_block_info_only;
  state = ed'.state;
}

SameRegs-IsLive : (ed ed' : Dispatcher) → SameRegs ed ed' → IsLive ed → IsLive ed'
SameRegs-IsLive ed ed' k v = subst IsLive (sym k) (record {
  alive = v.alive;
  tx_map = v.tx_map;
  cc_map = v.cc_map;
  compiled = v.compiled;
  patient = v.patient;
})

accept_block-SameRegs : (n : ℕ) (ed : Dispatcher) → SameRegs ed (accept_block n ed).0
unfolding accept_block update_last_block_num
accept_block-SameRegs n ed = ground arith

module _ (ed : Dispatcher) where
  in_blocks : {c : ℕ} → Mem c (map (λ r. r.eventch) ed.block_registrations) → Mem c (eventchs ed)
  in_blocks m = mem-append_left _ m

  in_fblocks :
      {c : ℕ} → Mem c (map (λ r. r.eventch) ed.filtered_block_registrations) → Mem c (eventchs ed)
  in_fblocks m = mem-append_right _ (mem-append_left _ m)

  in_txs : {c : ℕ} → Mem c (map (λ r. r.eventch) (values ed.tx_registrations)) → Mem c (eventchs ed)
  in_txs m = mem-append_right _ (mem-append_right _ (mem-append_left _ m))

  in_ccs : {c : ℕ} → Mem c (map (λ r. r.eventch) (values ed.cc_registrations)) → Mem c (eventchs ed)
  in_ccs m = mem-append_right (map (λ r. r.eventch) ed.block_registrations) (
      mem-append_right (map (λ r. r.eventch) ed.filtered_block_registrations)
        (mem-append_right (map (λ r. r.eventch) (values ed.tx_registrations)) m))

with_chans-IsLive :
    (ed : Dispatcher) (s : Channels)
    → SameClosed ed.chans s
    → IsLive ed
    → IsLive (record ed { chans = s })
with_chans-IsLive ed s k v = record {
  alive = Alive-SameClosed k v.alive;
  tx_map = v.tx_map;
  cc_map = v.cc_map;
  compiled = v.compiled;
  patient = v.patient;
}

set_state-SameRegs : (a b : State) (ed : Dispatcher) → SameRegs ed (set_state a b ed).0
unfolding set_state
set_state-SameRegs a b ed = ground arith

clear-IsLive : (b : Bool) (ed : Dispatcher) → IsLive ed → Returns IsLive (clear_registrations b ed)
clear-IsLive false ed v =
    unfold clear_registrations clear_block_registrations clear_filtered_block_registrations
      clear_tx_registrations clear_chaincode_registrations in
    cleared-IsLive ed ed.chans v
clear-IsLive true ed v = rw (clear_registrations-close_all ed) (
    Returns->>= (Closes (eventchs ed) ed.chans) IsLive (close_all (eventchs ed) ed.chans) _
      (close_all-Returns (eventchs ed) ed.chans v.alive) (λ s _. cleared-IsLive ed s v))

stopping-Lives :
    (ed : Dispatcher) (j : Dispatcher × Bool) (b : Bool) (reply : Dispatcher → Reply)
    (refusal : Reply)
    → SameRegs ed j.0
    → IsLive ed
    → Returns Lives (
        if j.1
        then clear_registrations b j.0 >>= (λ ed2. done (ed2, reply j.0))
        else done (j.0, refusal))
stopping-Lives ed (d, false) b reply refusal k v = SameRegs-IsLive ed d k v
stopping-Lives ed (d, true) b reply refusal k v =
    Returns->>= IsLive Lives (clear_registrations b d) _
      (clear-IsLive b d (SameRegs-IsLive ed d k v)) (λ d2 w. w)

module _ (lib : Library) where
  publish_filtered_block-Returns :
      (fblock : FilteredBlock) (url : Text) (ed : Dispatcher) (s : Channels)
      → SameClosed ed.chans s
      → IsLive ed
      → Returns (SameClosed s) (publish_filtered_block lib fblock url (record ed { chans = s }))
  unfolding publish_filtered_block
  publish_filtered_block-Returns fblock url ed s k v =
      publish_filtered_block_events-Returns (publisher lib ed url) v.patient fblock
        ed.filtered_block_registrations ed.tx_registrations ed.cc_registrations s
        (λ c m. k c ∙ v.alive.all_open c (in_fblocks ed m))
        (λ c m. k c ∙ v.alive.all_open c (in_txs ed m))
        (λ c m. k c ∙ v.alive.all_open c (in_ccs ed m)) v.compiled

  publish_block-Returns :
      (block : Block) (f : FilteredBlock) (url : Text) (ed : Dispatcher)
      → to_filtered_block lib.protos block ≡ done f
      → IsLive ed
      → Returns (SameClosed ed.chans) (publish_block lib block url ed)
  unfolding publish_block
  publish_block-Returns block f url ed e v =
      Returns->>= (SameClosed ed.chans) (SameClosed ed.chans)
        (publish_block_events (publisher lib ed url) block ed.block_registrations ed.chans) _
        (publish_block_events-Returns (publisher lib ed url) v.patient block ed.block_registrations
          ed.chans (λ c m. v.alive.all_open c (in_blocks ed m)))
        λ s k. rw e (
          Returns-mono (SameClosed s) (SameClosed ed.chans) _ (λ u l c. l c ∙ k c)
            (unfold publish_filtered_block in publish_filtered_block-Returns f url ed s k v))

  -- A block that is judged, and published if it is accepted.
  judged-Lives :
      (ed : Dispatcher) (j : Dispatcher × Bool) (publish : Dispatcher → Outcome Channels)
      → SameRegs ed j.0
      → IsLive ed
      → ((d : Dispatcher) → IsLive d → Returns (SameClosed d.chans) (publish d))
      → Returns IsLive
          (if j.1 then publish j.0 >>= (λ s. done (record (j.0) { chans = s })) else done j.0)
  judged-Lives ed (d, false) publish k v h = SameRegs-IsLive ed d k v
  judged-Lives ed (d, true) publish k v h =
      let w = SameRegs-IsLive ed d k v in
      Returns->>= (SameClosed d.chans) IsLive (publish d) _ (h d w)
        (λ s e. with_chans-IsLive d s e w)

  handle_block-IsLive :
      (block : Block) (h : BlockHeader) (f : FilteredBlock) (url : Text) (ed : Dispatcher)
      → block.header ≡ some h
      → to_filtered_block lib.protos block ≡ done f
      → IsLive ed
      → Returns IsLive (handle_block lib block url ed)
  unfolding handle_block
  handle_block-IsLive block h f url ed e p v =
      Returns->>= (λ _. Unit {0}) IsLive (deref block.header) _ (rw e tt)
        λ header _.
          judged-Lives ed (accept_block header.number ed) (publish_block lib block url)
            (accept_block-SameRegs header.number ed) v
            (λ d w. publish_block-Returns block f url d p w)

  handle_filtered_block-IsLive :
      (block : Option FilteredBlock) (f : FilteredBlock) (url : Text) (ed : Dispatcher)
      → block ≡ some f
      → IsLive ed
      → Returns IsLive (handle_filtered_block lib block url ed)
  unfolding handle_filtered_block
  handle_filtered_block-IsLive block f url ed e v =
      Returns->>= (λ _. Unit {0}) IsLive (deref block) _ (rw e tt)
        λ fblock _.
          judged-Lives ed (accept_block fblock.number ed) (publish_filtered_block lib fblock url)
            (accept_block-SameRegs fblock.number ed) v
            (λ d w. publish_filtered_block-Returns fblock url d d.chans (λ c. refl) w)

  -- A live dispatcher handles every admissible event: the handler returns, without a panic and
  -- without waiting for ever, and leaves a live dispatcher.
  pub handle-Lives :
      (e : Event) (ed : Dispatcher)
      → IsLive ed
      → Admissible lib e ed
      → Returns Lives (handle lib e ed)
  unfolding handle
  handle-Lives (register_block reg) ed v f = register_block-IsLive reg ed f v
  handle-Lives (register_filtered_block reg) ed v f = register_filtered_block-IsLive reg ed f v
  handle-Lives (register_chaincode reg) ed v f =
      unfold handle_register_cc_event in
      Returns-option Lives (lib.compile reg.event_filter) _ _ (λ _. v)
        λ reg_exp _.
          let compiled : ChaincodeReg = record reg { event_reg_exp = some reg_exp } in
          subst IsLive
            (sym (reply_to-state (chaincode_reg compiled) (register_cc_event compiled ed)))
            (register_cc-IsLive compiled ed f (λ e. cc) v)
  handle-Lives (register_tx_status reg) ed v f =
      unfold handle_register_tx_status_event in
      subst IsLive (sym (reply_to-state (tx_status_reg reg) (register_tx_status_event reg ed)))
        (register_tx_status-IsLive reg ed f v)
  handle-Lives (unregister reg) ed v f =
      Returns->>= (λ r. IsLive r.0) Lives (unregister_registration reg ed) _
        (unregister_registration-IsLive reg ed v) (λ r w. w)
  handle-Lives stop ed v f =
      unfold handle_stop_event in
      stopping-Lives ed (set_state started stopped ed) true (λ _. stopped_reply)
        (failed dispatcher_already_stopped) (set_state-SameRegs started stopped ed) v
  handle-Lives transfer ed v f = rw (handle_transfer_event_lem ed) (cleared-IsLive ed ed.chans v)
  handle-Lives stop_and_transfer ed v f =
      unfold handle_stop_and_transfer_event in
      stopping-Lives ed (set_state started stopped ed) false (λ d. snapshot_taken (new_snapshot d))
        (failed dispatcher_already_stopped) (set_state-SameRegs started stopped ed) v
  handle-Lives registration_info ed v f = v
  handle-Lives (block_event e) ed v (h, f, p, q) =
      Returns->>= IsLive Lives (handle_block lib e.block e.source_url ed) _
        (handle_block-IsLive e.block h f e.source_url ed p q v) (λ d w. w)
  handle-Lives (filtered_block_event block url) ed v (f, p) =
      Returns->>= IsLive Lives (handle_filtered_block lib block url ed) _
        (handle_filtered_block-IsLive block f url ed p v) (λ d w. w)
