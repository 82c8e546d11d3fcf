-- ===== src/Service/Order/Handling.antt =====
-- What a handler of the dispatcher does to the messages of the channels and to the last block.
use fabric_sdk_go_gm.Common.{
  ℕ, ◌<◌, ◌≡◌, refl, sym, ap, subst, ◌∙◌, ◌⊎◌, inl, inr, Bool, true, false, [], Option, none, some,
  arith, Bool-cases, if◌then◌else◌,
}
use mathlib.Core.List.{append-nil}
use fabric_sdk_go_gm.Common.Text.{Text}
use fabric_sdk_go_gm.Common.Outcome.{
  Outcome, done, ◌>>=◌, IfDone, IfDone->>=, IfDone-option, IfDone-deref,
}
use fabric_sdk_go_gm.Fab.{Block, BlockHeader, FilteredBlock}
use fabric_sdk_go_gm.Fab.Channels.{Channels, close}
use fabric_sdk_go_gm.Service.Registrations.{
  Event, register_block, register_filtered_block, register_chaincode, register_tx_status,
  unregister, stop, transfer, stop_and_transfer, registration_info, block_event,
  filtered_block_event, Reply, Error, Registration, block_reg, filtered_block_reg, chaincode_reg,
  tx_status_reg, other_reg, ChaincodeReg, TxStatusReg,
}
use fabric_sdk_go_gm.Service.Dispatcher.{
  Dispatcher, State, started, stopped, state_eq, max_uint64, set_state, update_last_block_num,
  register_block_event, register_filtered_block_event, register_cc_event, register_tx_status_event,
  clear_registrations,
}
use fabric_sdk_go_gm.Service.Unregister.{
  unregister_registration, unregister_block_events, unregister_filtered_block_events,
  unregister_cc_events, unregister_tx_events,
}
use fabric_sdk_go_gm.Service.FilterBlock.{to_filtered_block}
use fabric_sdk_go_gm.Service.Handlers.{
  Library, accept_block, publish_block, publish_filtered_block, handle_block, handle_filtered_block,
  handle_stop_event, handle_transfer_event, handle_stop_and_transfer_event,
  handle_register_cc_event, handle_register_tx_status_event, handle, publisher, reply_to,
}
use fabric_sdk_go_gm.Service.Order.{header_number, Gains, then-Gains}
use fabric_sdk_go_gm.Service.Order.Filtering.{number-to_filtered_block}
use fabric_sdk_go_gm.Service.Order.Publishing.{
  publish_block_events-Gains, publish_filtered_block_events-Gains,
}
use fabric_sdk_go_gm.Service.Order.Closing.{
  SameLogs, Keeps, Follows, close-SameLogs, clear_registrations-Keeps,
}

-- What holds of a dispatcher and a reply.
abbrev pub Leads : ℕ → Dispatcher → Dispatcher × Reply → Type 0
Leads n ed r = Follows n ed r.0

-- The number of the block that an event brings.
abbrev pub event_number : Event → ℕ
event_number (block_event e) = header_number e.block
event_number (filtered_block_event (some fblock) url) = fblock.number
event_number _ = 0

unregistered-Keeps :
    {A : Type 0} (ed : Dispatcher) (o : Option A) (x : Dispatcher × Option Error) (ch : A → ℕ)
    (f : A → Channels → Dispatcher × Option Error)
    → Keeps ed x.0
    → ((a : A) (s : Channels) → SameLogs ed.chans s → Keeps ed (f a s).0)
    → IfDone
        (λ r. Keeps ed r.0)
        (elim o [ none ↦ done x | some a ↦ close (ch a) ed.chans >>= λ s. done (f a s) ])
unregistered-Keeps ed none x ch f h k = h
unregistered-Keeps ed (some a) x ch f h k =
    IfDone->>= (SameLogs ed.chans) (λ r. Keeps ed r.0) (close (ch a) ed.chans) _
      (close-SameLogs (ch a) ed.chans) (k a)

unregister_registration-Keeps :
    (reg : Registration) (ed : Dispatcher)
    → IfDone (λ r. Keeps ed r.0) (unregister_registration reg ed)
unfolding unregister_registration unregister_block_events unregister_filtered_block_events
    unregister_cc_events unregister_tx_events
unregister_registration-Keeps (block_reg r) ed =
    unregistered-Keeps ed _ _ (λ f. f.1.eventch) _ (refl, λ c. refl) (λ f s h. (refl, h))
unregister_registration-Keeps (filtered_block_reg r) ed =
    unregistered-Keeps ed _ _ (λ f. f.1.eventch) _ (refl, λ c. refl) (λ f s h. (refl, h))
unregister_registration-Keeps (chaincode_reg r) ed =
    unregistered-Keeps ed _ _ (λ f. f.eventch) _ (refl, λ c. refl) (λ f s h. (refl, h))
unregister_registration-Keeps (tx_status_reg r) ed =
    unregistered-Keeps ed _ _ (λ f. f.eventch) _ (refl, λ c. refl) (λ f s h. (refl, h))
unregister_registration-Keeps other_reg ed = (refl, λ c. refl)

-- What the test of a block's number leaves behind.
abbrev pub Judged : ℕ → Dispatcher → Dispatcher × Bool → Type 0
Judged n ed (ed1, accepted) =
    (ed1.chans ≡ ed.chans)
    × (((ed1.last_block_num ≡ ed.last_block_num) × (accepted ≡ false))
        ⊎ ((ed1.last_block_num ≡ n) × ((ed.last_block_num ≡ max_uint64) ⊎ (ed.last_block_num < n))))

accept_block-Judged : (n : ℕ) (ed : Dispatcher) → Judged n ed (accept_block n ed)
unfolding accept_block update_last_block_num
accept_block-Judged n ed = ground arith

-- A block that is let through and published, or one that is not.
gated-Follows :
    (n : ℕ) (ed : Dispatcher) (j : Dispatcher × Bool) (publish : Dispatcher → Outcome Channels)
    → Judged n ed j
    → ((d : Dispatcher) → IfDone (Gains n d.chans) (publish d))
    → IfDone
        (Follows n ed)
        (if j.1 then publish j.0 >>= (λ s. done (record (j.0) { chans = s })) else done j.0)
gated-Follows n ed (ed1, false) publish (c, inl (e, _)) k =
    inl (e, λ i. ap (λ (s : Channels). (s i).log) c)
gated-Follows n ed (ed1, true) publish (c, inl (e, f)) k = cc
gated-Follows n ed (ed1, false) publish (c, inr (e, later)) k =
    inr (e, later, λ i. ([], ap (λ (s : Channels). (s i).log) c ∙ sym (append-nil _), tt))
gated-Follows n ed (ed1, true) publish (c, inr (e, later)) k =
    IfDone->>= (Gains n ed1.chans) (Follows n ed) (publish ed1) _ (k ed1)
      λ s g. inr (e, later, λ i. let (ms, l, a) = (g i).1 in (ms, rw (← c) l, a))

register_cc_event-Keeps :
    (reg : ChaincodeReg) (ed : Dispatcher) → Keeps ed (register_cc_event reg ed).0
unfolding register_cc_event
register_cc_event-Keeps reg ed = ground arith

register_tx_status_event-Keeps :
    (reg : TxStatusReg) (ed : Dispatcher) → Keeps ed (register_tx_status_event reg ed).0
unfolding register_tx_status_event
register_tx_status_event-Keeps reg ed = ground arith

pub reply_to-state : (reg : Registration) (r : Dispatcher × Option Error) → (reply_to reg r).0 ≡ r.0
reply_to-state reg (ed, none) = refl
reply_to-state reg (ed, some e) = refl

set_state-Keeps : (a b : State) (ed : Dispatcher) → Keeps ed (set_state a b ed).0
unfolding set_state
set_state-Keeps a b ed = elim (Bool-cases (state_eq ed.state a)) [
  | inl e ↦ rw e (refl, λ c. refl)
  | inr e ↦ rw e (refl, λ c. refl)
]

cleared-Leads :
    (n : ℕ) (ed ed1 : Dispatcher) (b : Bool) (reply : Reply)
    → Keeps ed ed1
    → IfDone (Leads n ed) (clear_registrations b ed1 >>= λ ed2. done (ed2, reply))
cleared-Leads n ed ed1 b reply h =
    IfDone->>= (Keeps ed1) (Leads n ed) (clear_registrations b ed1) _
      (clear_registrations-Keeps b ed1) λ ed2 k. inl (k.0 ∙ h.0, λ c. k.1 c ∙ h.1 c)

stopping-Leads :
    (n : ℕ) (ed ed1 : Dispatcher) (close_channels was_started : Bool) (reply refusal : Reply)
    → Keeps ed ed1
    → IfDone (Leads n ed) (
        if was_started
        then clear_registrations close_channels ed1 >>= (λ ed2. done (ed2, reply))
        else done (ed1, refusal))
stopping-Leads n ed ed1 b true reply refusal h = cleared-Leads n ed ed1 b reply h
stopping-Leads n ed ed1 b false reply refusal h = inl h

module _ (lib : Library) where
  handle_filtered_block-Follows :
      (block : Option FilteredBlock) (url : Text) (ed : Dispatcher)
      → IfDone
          (Follows (event_number (filtered_block_event block url)) ed)
          (handle_filtered_block lib block url ed)
  unfolding handle_filtered_block publish_filtered_block
  handle_filtered_block-Follows none url ed = tt
  handle_filtered_block-Follows (some fblock) url ed =
      gated-Follows fblock.number ed (accept_block fblock.number ed) _
        (accept_block-Judged fblock.number ed)
        (λ d.
          publish_filtered_block_events-Gains (publisher lib d url) fblock
            d.filtered_block_registrations d.tx_registrations d.cc_registrations d.chans)

  publish_block-Gains :
      (block : Block) (url : Text) (ed : Dispatcher)
      → IfDone (Gains (header_number block) ed.chans) (publish_block lib block url ed)
  unfolding publish_block
  publish_block-Gains block url ed =
      then-Gains (header_number block) ed.chans _ _
        (publish_block_events-Gains (publisher lib ed url) block ed.block_registrations ed.chans)
        λ s.
          IfDone->>= (λ f. f.number ≡ header_number block) (Gains (header_number block) s)
            (to_filtered_block lib.protos block) _ (number-to_filtered_block lib.protos block)
            λ f e. rw (← e) (
              publish_filtered_block_events-Gains (publisher lib ed url) f
                ed.filtered_block_registrations ed.tx_registrations ed.cc_registrations s)

  handle_block-Follows :
      (block : Block) (url : Text) (ed : Dispatcher)
      → IfDone (Follows (header_number block) ed) (handle_block lib block url ed)
  unfolding handle_block
  handle_block-Follows block url ed =
      IfDone-deref (Follows (header_number block) ed) block.header _ λ h e.
        let same : header_number block ≡ h.number =
          ap (λ (o : Option BlockHeader). elim o [ none ↦ 0 | some x ↦ x.number ]) e in
        rw same (
          gated-Follows h.number ed (accept_block h.number ed) (publish_block lib block url)
            (accept_block-Judged h.number ed)
            (λ d.
              subst (λ n. IfDone (Gains n d.chans) (publish_block lib block url d)) same
                (publish_block-Gains block url d)))

  -- Every event, if its handling returns, leaves the last block and the channels as they are or
  -- moves on to a later block.
  pub handle-Follows :
      (e : Event) (ed : Dispatcher) → IfDone (Leads (event_number e) ed) (handle lib e ed)
  unfolding handle
  handle-Follows (register_block reg) ed = unfold register_block_event in inl (refl, λ c. refl)
  handle-Follows (register_filtered_block reg) ed =
      unfold register_filtered_block_event in inl (refl, λ c. refl)
  handle-Follows (register_chaincode reg) ed =
      unfold handle_register_cc_event in
      IfDone-option (Leads 0 ed) (lib.compile reg.event_filter) _ _ (inl (refl, λ c. refl))
        λ reg_exp.
          let compiled : ChaincodeReg = record reg { event_reg_exp = some reg_exp } in
          inl (
            rw (reply_to-state (chaincode_reg compiled) (register_cc_event compiled ed))
              (register_cc_event-Keeps compiled ed))
  handle-Follows (register_tx_status reg) ed =
      unfold handle_register_tx_status_event in
      inl (
        rw (reply_to-state (tx_status_reg reg) (register_tx_status_event reg ed))
          (register_tx_status_event-Keeps reg ed))
  handle-Follows (unregister reg) ed =
      IfDone->>= (λ r. Keeps ed r.0) (Leads 0 ed) (unregister_registration reg ed) _
        (unregister_registration-Keeps reg ed) (λ r h. inl h)
  handle-Follows stop ed =
      unfold handle_stop_event in
      stopping-Leads 0 ed _ true _ _ _ (set_state-Keeps started stopped ed)
  handle-Follows transfer ed =
      unfold handle_transfer_event in cleared-Leads 0 ed ed false _ (refl, λ c. refl)
  handle-Follows stop_and_transfer ed =
      unfold handle_stop_and_transfer_event in
      stopping-Leads 0 ed _ false _ _ _ (set_state-Keeps started stopped ed)
  handle-Follows registration_info ed = inl (refl, λ c. refl)
  handle-Follows (block_event e) ed =
      IfDone->>= (Follows (header_number e.block) ed) (Leads (header_number e.block) ed)
        (handle_block lib e.block e.source_url ed) _ (handle_block-Follows e.block e.source_url ed)
        (λ d h. h)
  handle-Follows (filtered_block_event block url) ed =
      IfDone->>= (Follows (event_number (filtered_block_event block url)) ed)
        (Leads (event_number (filtered_block_event block url)) ed)
        (handle_filtered_block lib block url ed) _ (handle_filtered_block-Follows block url ed)
        (λ d h. h)
