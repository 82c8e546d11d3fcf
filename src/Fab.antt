-- ===== src/Fab.antt =====
-- pkg/common/providers/fab: the events that reach a client, and what they carry. The messages of
-- the Fabric protocol are records of the fields that the code reads; a pointer field is an `Option`.
pub mod Channels
use fabric_sdk_go_gm.Common.{ℕ, List, Option}
use fabric_sdk_go_gm.Common.Text.{Text}

abbrev pub Bytes : Type 0
Bytes = List ℕ

pub record BlockHeader : Type 0 where
  pub number : ℕ

pub record Block : Type 0 where
  pub header : Option BlockHeader
  pub data_ : Option (List Bytes)
  pub metadata : Option (List Bytes)

pub record ChaincodeEvent : Type 0 where
  pub chaincode_id : Text
  pub event_name : Text
  pub tx_id : Text
  pub payload : Bytes

pub record FilteredChaincodeAction : Type 0 where
  pub chaincode_event : Option ChaincodeEvent

pub record FilteredTransaction : Type 0 where
  pub txid : Text
  pub type : ℕ
  pub tx_validation_code : ℕ
  pub transaction_actions : Option (List FilteredChaincodeAction)

pub record FilteredBlock : Type 0 where
  pub channel_id : Text
  pub number : ℕ
  pub filtered_transactions : List FilteredTransaction

-- The events of eventservice.go.
pub record BlockEvent : Type 0 where
  pub block : Block
  pub source_url : Text

pub record FilteredBlockEvent : Type 0 where
  pub filtered_block : FilteredBlock
  pub source_url : Text

pub record TxStatusEvent : Type 0 where
  pub tx_id : Text
  pub tx_validation_code : ℕ
  pub block_number : ℕ
  pub source_url : Text

pub record CcEvent : Type 0 where
  pub tx_id : Text
  pub chaincode_id : Text
  pub event_name : Text
  pub payload : Bytes
  pub block_number : ℕ
  pub source_url : Text

pub data Message : Type 0 where
  block_message : BlockEvent → Message
  filtered_block_message : FilteredBlockEvent → Message
  tx_status_message : TxStatusEvent → Message
  cc_message : CcEvent → Message
