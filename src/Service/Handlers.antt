-- ===== src/Service/Handlers.antt =====
-- dispatcher.go: the handlers, the table of handlers, the start and the loop of the dispatcher.
use fabric_sdk_go_gm.Common.{
  ℕ, ◌+◌, Bool, true, false, List, [], ◌∷◌, Option, none, some, length, if◌then◌else◌,
}
use fabric_sdk_go_gm.Common.Text.{Text}
use fabric_sdk_go_gm.Common.Outcome.{Outcome, done, ◌>>=◌, deref}
use fabric_sdk_go_gm.Fab.{Block, FilteredBlock}
use fabric_sdk_go_gm.Fab.Channels.{Channels, Ready}
use fabric_sdk_go_gm.Service.Registrations.{
  ChaincodeReg, TxStatusReg, Registration, block_reg, filtered_block_reg, chaincode_reg,
  tx_status_reg, RegistrationInfo, Event, register_block, register_filtered_block,
  register_chaincode, register_tx_status, unregister, stop, transfer, stop_and_transfer,
  registration_info, block_event, filtered_block_event, Error, bad_event_filter,
  dispatcher_already_stopped, Reply, no_reply, registered, failed, stopped as stopped_reply,
  snapshot_taken, info,
}
use fabric_sdk_go_gm.Service.Dispatcher.{
  started, stopped, state_eq, Dispatcher, set_state, update_last_block_num, register_block_event,
  register_filtered_block_event, register_cc_event, register_tx_status_event, clear_registrations,
  new_snapshot,
}
use fabric_sdk_go_gm.Service.Publish.{
  Publisher, publish_block_events, publish_filtered_block_events,
}
use fabric_sdk_go_gm.Service.Filter.{Protos}
use fabric_sdk_go_gm.Service.FilterBlock.{to_filtered_block}
use fabric_sdk_go_gm.Service.Unregister.{unregister_registration}

-- What the code takes from elsewhere: the compiler of regular expressions, the decoder of the
-- Fabric protocol, the code of a valid transaction, and the readiness of the consumers.
pub record Library : Type 0 where
  pub compile : Text → Option (Text → Bool)
  pub protos : Protos
  pub valid : ℕ
  pub ready : Ready

abbrev pub Handled : Type 0
Handled = Outcome (Dispatcher × Reply)

unfoldable pub handle_stop_event : Dispatcher → Handled
handle_stop_event ed =
    let (ed1, was_started) = set_state started stopped ed in
    if was_started
    then clear_registrations true ed1 >>= (λ ed2. done (ed2, stopped_reply))
    else done (ed1, failed dispatcher_already_stopped)

unfoldable pub handle_transfer_event : Dispatcher → Handled
handle_transfer_event ed =
    clear_registrations false ed >>= λ ed1. done (ed1, snapshot_taken (new_snapshot ed))

unfoldable pub handle_stop_and_transfer_event : Dispatcher → Handled
handle_stop_and_transfer_event ed =
    let (ed1, was_started) = set_state started stopped ed in
    if was_started
    then clear_registrations false ed1 >>= (λ ed2. done (ed2, snapshot_taken (new_snapshot ed1)))
    else done (ed1, failed dispatcher_already_stopped)

-- An error goes to the request's error channel, a registration to its registration channel.
abbrev pub reply_to : Registration → Dispatcher × Option Error → Dispatcher × Reply
reply_to reg (ed, none) = (ed, registered reg)
reply_to reg (ed, some e) = (ed, failed e)

unfoldable pub handle_register_cc_event :
    (Text → Option (Text → Bool)) → ChaincodeReg → Dispatcher → Handled
handle_register_cc_event compile reg ed = elim (compile reg.event_filter) [
  | none ↦ done (ed, failed (bad_event_filter reg.event_filter))
  | some reg_exp ↦
      let compiled = record reg { event_reg_exp = some reg_exp } in
      done (reply_to (chaincode_reg compiled) (register_cc_event compiled ed))
]

unfoldable pub handle_register_tx_status_event : TxStatusReg → Dispatcher → Handled
handle_register_tx_status_event reg ed =
    done (reply_to (tx_status_reg reg) (register_tx_status_event reg ed))

unfoldable pub handle_registration_info_event : Dispatcher → RegistrationInfo
handle_registration_info_event ed = record {
  total_registrations =
      length ed.block_registrations
      + length ed.filtered_block_registrations
      + length ed.cc_registrations
      + length ed.tx_registrations;
  num_block_registrations = length ed.block_registrations;
  num_filtered_block_registrations = length ed.filtered_block_registrations;
  num_cc_registrations = length ed.cc_registrations;
  num_tx_status_registrations = length ed.tx_registrations;
}

abbrev pub publisher : Library → Dispatcher → Text → Publisher
publisher lib ed source_url = record {
  ready = lib.ready;
  timeout = ed.params.event_consumer_timeout;
  valid = lib.valid;
  source_url = source_url;
}

-- A block that is out of order is dropped, and so is the one after `UpdateLastBlockInfoOnly`.
unfoldable pub accept_block : ℕ → Dispatcher → Dispatcher × Bool
accept_block n ed =
    let (ed1, e) = update_last_block_num n ed in
    elim e [
      | some _ ↦ (ed1, false)
      | none ↦
          if ed1.update_last_block_info_only
          then (record ed1 { update_last_block_info_only = false }, false)
          else (ed1, true)
    ]

module _ (lib : Library) where
  unfoldable pub publish_block : Block → Text → Dispatcher → Outcome Channels
  publish_block block source_url ed =
      publish_block_events (publisher lib ed source_url) block ed.block_registrations ed.chans
      >>= (λ s1. to_filtered_block lib.protos block >>= (λ fblock.
          publish_filtered_block_events (publisher lib ed source_url) (some fblock)
            ed.filtered_block_registrations ed.tx_registrations ed.cc_registrations s1))

  unfoldable pub handle_block : Block → Text → Dispatcher → Outcome Dispatcher
  handle_block block source_url ed = deref block.header >>= (λ header.
      let (ed1, accepted) = accept_block header.number ed in
      if accepted
      then publish_block block source_url ed1 >>= (λ s. done (record ed1 { chans = s }))
      else done ed1)

  unfoldable pub publish_filtered_block : FilteredBlock → Text → Dispatcher → Outcome Channels
  publish_filtered_block fblock source_url ed =
      publish_filtered_block_events (publisher lib ed source_url) (some fblock)
        ed.filtered_block_registrations ed.tx_registrations ed.cc_registrations ed.chans

  unfoldable pub handle_filtered_block :
      Option FilteredBlock → Text → Dispatcher → Outcome Dispatcher
  handle_filtered_block block source_url ed = deref block >>= (λ fblock.
      let (ed1, accepted) = accept_block fblock.number ed in
      if accepted
      then publish_filtered_block fblock source_url ed1 >>= (λ s. done (record ed1 { chans = s }))
      else done ed1)

  -- One round of the loop: the handler that the table holds for the type of the event.
  unfoldable pub handle : Event → Dispatcher → Handled
  handle (register_block reg) ed = done (register_block_event reg ed, registered (block_reg reg))
  handle (register_filtered_block reg) ed =
      done (register_filtered_block_event reg ed, registered (filtered_block_reg reg))
  handle (register_chaincode reg) ed = handle_register_cc_event lib.compile reg ed
  handle (register_tx_status reg) ed = handle_register_tx_status_event reg ed
  handle (unregister reg) ed = unregister_registration reg ed >>= λ r. done (r.0, no_reply)
  handle stop ed = handle_stop_event ed
  handle transfer ed = handle_transfer_event ed
  handle stop_and_transfer ed = handle_stop_and_transfer_event ed
  handle registration_info ed = done (ed, info (handle_registration_info_event ed))
  handle (block_event e) ed = handle_block e.block e.source_url ed >>= λ ed1. done (ed1, no_reply)
  handle (filtered_block_event block source_url) ed =
      handle_filtered_block block source_url ed >>= λ ed1. done (ed1, no_reply)

  -- The goroutine of `Start`: a stopped dispatcher takes no more events.
  unfoldable pub run : List Event → Dispatcher → Outcome (Dispatcher × List Reply)
  run [] ed = done (ed, [])
  run (e ∷ es) ed =
      if state_eq ed.state stopped
      then done (ed, [])
      else handle e ed >>= (λ (r : Dispatcher × Reply). run es r.0 >>= (λ q. done (q.0, r.1 ∷ q.1)))
