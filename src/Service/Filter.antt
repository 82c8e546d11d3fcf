-- ===== src/Service/Filter.antt =====
-- dispatcher.go: the filtered transaction of an envelope. The decoding of the Fabric protocol messages and
-- of the validation flags is not this program's: it comes as the argument `Protos`.
use fabric_sdk_go_gm.Common.{ℕ, List, [], ◌∷◌, Option, none, some, get_elem?, ◌==◌, if◌then◌else◌}
use fabric_sdk_go_gm.Common.Text.{Text}
use fabric_sdk_go_gm.Common.Outcome.{Panic, nil_dereference, index_out_of_range}
use fabric_sdk_go_gm.Fab.{Bytes, FilteredTransaction, FilteredChaincodeAction, ChaincodeEvent}

pub record ChannelHeader : Type 0 where
  pub type : ℕ
  pub tx_id : Text
  pub channel_id : Text

-- A payload whose `header` is nil, and a chaincode action payload whose `action` is nil, are values.
pub record Payload : Type 0 where
  pub header : Option Bytes
  pub body : Bytes

-- `none` of an unmarshal function is its error; `some none` is a nil message without an error.
pub record Protos : Type 0 where
  pub get_envelope_from_block : Bytes → Option (Option Bytes)
  pub unmarshal_payload : Bytes → Option Payload
  pub unmarshal_channel_header : Bytes → Option ChannelHeader
  pub unmarshal_transaction : Bytes → Option (List Bytes)
  pub unmarshal_chaincode_action_payload : Bytes → Option (Option Bytes)
  pub unmarshal_proposal_response_payload : Bytes → Option Bytes
  pub unmarshal_chaincode_action : Bytes → Option Bytes
  pub unmarshal_chaincode_events : Bytes → Option (Option ChaincodeEvent)
  pub validation_flag : Bytes → ℕ → Option ℕ
  pub endorser_transaction : ℕ
  pub transactions_filter : ℕ

pub data ParseError : Type 0 where
  bad_envelope nil_envelope bad_payload bad_channel_header bad_transaction : ParseError
  bad_action_payload bad_response_payload bad_chaincode_action bad_chaincode_events : ParseError

pub data Parsed (A : Type 0) : Type 0 where
  ok : A → Parsed A
  err : ParseError → Parsed A
  panicked : Panic → Parsed A

infixl 5 ◌>>=◌
abbrev pub ◌>>=◌ : {A B : Type 0} → Parsed A → (A → Parsed B) → Parsed B
ok a >>= f = f a
err e >>= f = err e
panicked p >>= f = panicked p

abbrev pub or_err : {A : Type 0} → Option A → ParseError → Parsed A
or_err none e = err e
or_err (some a) e = ok a

abbrev pub or_panic : {A : Type 0} → Option A → Panic → Parsed A
or_panic none p = panicked p
or_panic (some a) p = ok a

abbrev pub cc_event_actions : Option ChaincodeEvent → List FilteredChaincodeAction
cc_event_actions none = []
cc_event_actions (some e) = record { chaincode_event = some e } ∷ []

module _ (protos : Protos) where
  open protos use {
    get_envelope_from_block, unmarshal_payload, unmarshal_channel_header, unmarshal_transaction,
    unmarshal_chaincode_action_payload, unmarshal_proposal_response_payload,
    unmarshal_chaincode_action, unmarshal_chaincode_events, validation_flag, endorser_transaction,
    transactions_filter,
  }

  -- `tx.Actions[0]` panics on a transaction without actions.
  unfoldable pub get_filtered_transaction_actions : Bytes → Parsed (List FilteredChaincodeAction)
  get_filtered_transaction_actions bytes = do
    actions ← or_err (unmarshal_transaction bytes) bad_transaction
    first ← or_panic (get_elem? actions 0) index_out_of_range
    action ← or_err (unmarshal_chaincode_action_payload first) bad_action_payload
    response ← or_panic action nil_dereference
    extension ← or_err (unmarshal_proposal_response_payload response) bad_response_payload
    events ← or_err (unmarshal_chaincode_action extension) bad_chaincode_action
    cc_event ← or_err (unmarshal_chaincode_events events) bad_chaincode_events
    ok (cc_event_actions cc_event)

  abbrev pub filtered_tx_data :
      ChannelHeader → Payload → Parsed (Option (List FilteredChaincodeAction))
  filtered_tx_data header payload =
      if header.type == endorser_transaction
      then get_filtered_transaction_actions payload.body >>= (λ actions. ok (some actions))
      else ok none

  -- The filtered transaction, and the channel that the transaction is for.
  unfoldable pub get_filtered_tx : Bytes → ℕ → Parsed (FilteredTransaction × Text)
  get_filtered_tx bytes tx_validation_code = do
    found ← or_err (get_envelope_from_block bytes) bad_envelope
    envelope ← or_err found nil_envelope
    payload ← or_err (unmarshal_payload envelope) bad_payload
    header_bytes ← or_panic payload.header nil_dereference
    header ← or_err (unmarshal_channel_header header_bytes) bad_channel_header
    actions ← filtered_tx_data header payload
    ok (
      record {
        txid = header.tx_id;
        type = header.type;
        tx_validation_code = tx_validation_code;
        transaction_actions = actions;
      },
      header.channel_id,
    )
