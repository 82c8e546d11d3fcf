-- ===== src/Service/Publish.antt =====
-- dispatcher.go: publishing a block to the registered consumers. Each function walks the
-- registrations, and `send` is the three-way send that the code repeats in each.
use fabric_sdk_go_gm.Common.{ℕ, Bool, false, List, [], ◌∷◌, Option, none, some, ◌==◌, if◌then◌else◌}
use fabric_sdk_go_gm.Common.Int.{ℤ}
use fabric_sdk_go_gm.Common.Text.{Text, text_eq}
use fabric_sdk_go_gm.Common.Map.{lookup, values}
use fabric_sdk_go_gm.Common.Outcome.{Outcome, done, ◌>>=◌, deref}
use fabric_sdk_go_gm.Fab.{
  Bytes, Block, FilteredBlock, FilteredTransaction, FilteredChaincodeAction, ChaincodeEvent,
  BlockEvent, FilteredBlockEvent, TxStatusEvent, CcEvent, block_message, filtered_block_message,
  tx_status_message, cc_message,
}
use fabric_sdk_go_gm.Fab.Channels.{Channels, Ready, send}
use fabric_sdk_go_gm.Service.Registrations.{BlockReg, FilteredBlockReg, ChaincodeReg, TxStatusReg}

-- The constructors of the events, from events.go.
unfoldable pub new_block_event : Block → Text → BlockEvent
new_block_event block source_url = record { block = block; source_url = source_url }

unfoldable pub new_filtered_block_event : FilteredBlock → Text → FilteredBlockEvent
new_filtered_block_event fblock source_url = record {
  filtered_block = fblock;
  source_url = source_url;
}

unfoldable pub new_chaincode_event : Text → Text → Text → Bytes → ℕ → Text → CcEvent
new_chaincode_event chaincode_id event_name tx_id payload block_num source_url = record {
  tx_id = tx_id;
  chaincode_id = chaincode_id;
  event_name = event_name;
  payload = payload;
  block_number = block_num;
  source_url = source_url;
}

unfoldable pub new_tx_status_event : Text → ℕ → ℕ → Text → TxStatusEvent
new_tx_status_event tx_id code block_num source_url = record {
  tx_id = tx_id;
  tx_validation_code = code;
  block_number = block_num;
  source_url = source_url;
}

-- The consumers' readiness, the consumer timeout, the code of a valid transaction, and the source.
pub record Publisher : Type 0 where
  pub ready : Ready
  pub timeout : ℤ
  pub valid : ℕ
  pub source_url : Text

module _ (p : Publisher) where
  unfoldable pub publish_block_events : Block → List BlockReg → Channels → Outcome Channels
  publish_block_events block [] s = done s
  publish_block_events block (reg ∷ regs) s =
      (if reg.filter block
        then send p.ready p.timeout reg.eventch (block_message (new_block_event block p.source_url))
            s
        else done s)
      >>= publish_block_events block regs

  unfoldable pub check_filtered_block_registrations :
      FilteredBlock → List FilteredBlockReg → Channels → Outcome Channels
  check_filtered_block_registrations fblock [] s = done s
  check_filtered_block_registrations fblock (reg ∷ regs) s =
      send p.ready p.timeout reg.eventch
        (filtered_block_message (new_filtered_block_event fblock p.source_url)) s
      >>= check_filtered_block_registrations fblock regs

  unfoldable pub publish_tx_status_events :
      FilteredTransaction → ℕ → List (Text × TxStatusReg) → Channels → Outcome Channels
  publish_tx_status_events tx block_num regs s = elim (lookup tx.txid regs) [
    | none ↦ done s
    | some reg ↦
        send p.ready p.timeout reg.eventch
          (tx_status_message
            (new_tx_status_event tx.txid tx.tx_validation_code block_num p.source_url))
          s
  ]

  -- The test of one registration: the regular expression is read only if the identifiers agree.
  unfoldable pub matches_cc_event : ChaincodeEvent → ChaincodeReg → Outcome Bool
  matches_cc_event e reg =
      if text_eq reg.chaincode_id e.chaincode_id
      then (deref reg.event_reg_exp >>= λ reg_exp. done (reg_exp e.event_name))
      else done false

  unfoldable pub publish_cc_events :
      ChaincodeEvent → ℕ → List ChaincodeReg → Channels → Outcome Channels
  publish_cc_events e block_num [] s = done s
  publish_cc_events e block_num (reg ∷ regs) s = matches_cc_event e reg >>= (λ matched.
      (if matched
        then send p.ready p.timeout reg.eventch
            (cc_message (
              new_chaincode_event e.chaincode_id e.event_name e.tx_id e.payload block_num
                p.source_url))
            s
        else done s)
      >>= publish_cc_events e block_num regs)

  unfoldable pub publish_actions :
      List FilteredChaincodeAction → ℕ → List ChaincodeReg → Channels → Outcome Channels
  publish_actions [] block_num regs s = done s
  publish_actions (action ∷ actions) block_num regs s =
      elim action.chaincode_event [ none ↦ done s | some e ↦ publish_cc_events e block_num regs s ]
      >>= publish_actions actions block_num regs

  -- The chaincode events of one transaction: of valid transactions only, and only with actions.
  unfoldable pub publish_tx_cc_events :
      FilteredTransaction → ℕ → List ChaincodeReg → Channels → Outcome Channels
  publish_tx_cc_events tx block_num regs s =
      if tx.tx_validation_code == p.valid
      then elim tx.transaction_actions [
        | none ↦ done s
        | some actions ↦ publish_actions actions block_num regs s
      ]
      else done s

  unfoldable pub publish_transactions :
      List FilteredTransaction
      → ℕ
      → List (Text × TxStatusReg)
      → List (Text × ChaincodeReg)
      → Channels
      → Outcome Channels
  publish_transactions [] block_num tx_regs cc_regs s = done s
  publish_transactions (tx ∷ txs) block_num tx_regs cc_regs s =
      publish_tx_status_events tx block_num tx_regs s >>= (λ s1.
        publish_tx_cc_events tx block_num (values cc_regs) s1
        >>= publish_transactions txs block_num tx_regs cc_regs)

  unfoldable pub publish_filtered_block_events :
      Option FilteredBlock
      → List FilteredBlockReg
      → List (Text × TxStatusReg)
      → List (Text × ChaincodeReg)
      → Channels
      → Outcome Channels
  publish_filtered_block_events none fb_regs tx_regs cc_regs s = done s
  publish_filtered_block_events (some fblock) fb_regs tx_regs cc_regs s =
      check_filtered_block_registrations fblock fb_regs s
      >>= publish_transactions fblock.filtered_transactions fblock.number tx_regs cc_regs
