-- ===== src/Service/Delivery/Tests.antt =====
-- The theorems on the delivery of messages at concrete inputs.
use fabric_sdk_go_gm.Common.{◌≢◌, refl, true, List, [], ◌∷◌, ◌++◌, some, none}
use fabric_sdk_go_gm.Common.Int.{pos}
use fabric_sdk_go_gm.Common.Text.{Text, text_eq}
use fabric_sdk_go_gm.Common.Map.{values}
use fabric_sdk_go_gm.Common.Outcome.{Returns}
use fabric_sdk_go_gm.Fab.{FilteredBlock, FilteredTransaction, ChaincodeEvent}
use fabric_sdk_go_gm.Service.Registrations.{BlockReg, FilteredBlockReg, ChaincodeReg, TxStatusReg}
use fabric_sdk_go_gm.Service.Publish.{
  Publisher, publish_block_events, publish_filtered_block_events,
}
use fabric_sdk_go_gm.Service.Live.Sending.{AllCompiled}
use fabric_sdk_go_gm.Service.Tests.{chans, block_of, reg}
use fabric_sdk_go_gm.Service.Delivery.{Delivered, block_messages, publish_block_events-Delivered}
use fabric_sdk_go_gm.Service.Delivery.Filtered.{
  fblock_messages, txs_messages, publish_filtered_block_events-Delivered,
}

abbrev publisher : Publisher
publisher = record { ready = λ c n. true; timeout = pos 0; valid = 0; source_url = [] }

abbrev block_regs : List BlockReg
block_regs = reg 4 ∷ reg 5 ∷ []

publish_block_events-Delivered_example :
    Returns
      (Delivered (λ c. block_messages (block_of 7) [] c block_regs) chans)
      (publish_block_events publisher (block_of 7) block_regs chans)
publish_block_events-Delivered_example =
    publish_block_events-Delivered publisher (λ c n. refl) (block_of 7) block_regs chans (λ c. refl)

abbrev event : ChaincodeEvent
event = record { chaincode_id = 99 ∷ []; event_name = 101 ∷ []; tx_id = 116 ∷ []; payload = [] }

abbrev tx : FilteredTransaction
tx = record {
  txid = 116 ∷ [];
  type = 3;
  tx_validation_code = 0;
  transaction_actions = some (record { chaincode_event = some event } ∷ []);
}

abbrev fblock : FilteredBlock
fblock = record { channel_id = []; number = 7; filtered_transactions = tx ∷ [] }

abbrev fblock_regs : List FilteredBlockReg
fblock_regs = record { addr = 1; eventch = 1 } ∷ []

abbrev tx_regs : List (Text × TxStatusReg)
tx_regs = (116 ∷ [], record { addr = 2; tx_id = 116 ∷ []; eventch = 2 }) ∷ []

abbrev cc_reg : ChaincodeReg
cc_reg = record {
  addr = 3;
  chaincode_id = 99 ∷ [];
  event_filter = 101 ∷ [];
  event_reg_exp = some (text_eq (101 ∷ []));
  eventch = 3;
}

abbrev cc_regs : List (Text × ChaincodeReg)
cc_regs = (99 ∷ 47 ∷ 101 ∷ [], cc_reg) ∷ []

has_filter : cc_reg.event_reg_exp ≢ none
has_filter = λ e. cc

cc_regs-AllCompiled : AllCompiled (values cc_regs)
unfolding values
cc_regs-AllCompiled = (has_filter, tt)

publish_filtered_block_events-Delivered_example :
    Returns
      (Delivered
        (λ c.
          fblock_messages publisher c fblock fblock_regs
          ++ txs_messages publisher c (tx ∷ []) 7 tx_regs cc_regs)
        chans)
      (publish_filtered_block_events publisher (some fblock) fblock_regs tx_regs cc_regs chans)
publish_filtered_block_events-Delivered_example =
    publish_filtered_block_events-Delivered publisher (λ c n. refl) fblock fblock_regs tx_regs
      cc_regs chans cc_regs-AllCompiled (λ c. refl)
