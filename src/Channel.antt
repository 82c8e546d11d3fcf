-- ===== src/Channel.antt =====
-- pkg/client/channel/invoke: the handlers of a query and of a transaction. What the transactor, the
-- selection service, the membership, the event service and the decoding of messages answer is an
-- argument.
pub mod Agreeing
pub mod Invocation
pub mod Querying
pub mod Tests
use fabric_sdk_go_gm.Common.{
  ℕ, Bool, true, false, not, ◌&&◌, List, [], ◌∷◌, ◌++◌, Option, none, some, leb, ltb, ◌==◌,
  if◌then◌else◌,
}
use fabric_sdk_go_gm.Common.Int.{ℤ, pos, negsuc}
use fabric_sdk_go_gm.Common.Text.{Text, text_eq}
use fabric_sdk_go_gm.Common.Outcome.{Outcome, done, panics, ◌>>=◌, deref}
use fabric_sdk_go_gm.Fab.{Bytes}
use fabric_sdk_go_gm.Selection.{Peer}
use fabric_sdk_go_gm.EventClient.{Answer}
use fabric_sdk_go_gm.EventClient

-- The chaincode's response in a proposal response.
pub record ChaincodeResponse : Type 0 where
  pub response_status : ℤ
  pub response_payload : Bytes

-- fab.TransactionProposalResponse; `response` is none where the message has no response.
pub record Endorsement : Type 0 where
  pub endorser : Text
  pub chaincode_status : ℤ
  pub payload : Bytes
  pub response : Option ChaincodeResponse

pub record ChaincodeCall : Type 0 where
  pub id : Text
  pub collections : List Text

pub data HandlerError : Type 0 where
  no_targets no_endorsers endorsement_failed undecodable : HandlerError
  bad_response endorsement_mismatch bad_signature : HandlerError
  not_registered not_sent invalid_transaction timed_out : HandlerError

-- fab.TransactionProposal, by its transaction identifier.
pub record Proposal : Type 0 where
  pub txn_id : Text

-- RequestContext, and of what was done outside the transactions that were sent.
pub record Request : Type 0 where
  pub chaincode_id : Text
  pub invocation_chain : List ChaincodeCall
  pub targets : List Peer
  pub proposal : Option Proposal
  pub transaction_id : Text
  pub responses : List Endorsement
  pub result : Bytes
  pub result_status : ℤ
  pub tx_validation_code : ℕ
  pub error : Option HandlerError
  pub sent : List (List Endorsement)

-- The result of createAndSendTransactionProposal.
pub record Proposed : Type 0 where
  pub proposed : Option Proposal
  pub endorsements : List Endorsement
  pub failure : Option Text

pub data TxOutcome : Type 0 where
  tx_status : ℕ → TxOutcome
  context_done : TxOutcome

pub record Outside : Type 0 where
  pub get_endorsers : List ChaincodeCall → Answer (List Peer)
  pub create_header : Answer Text
  pub create_proposal : Text → Text → Answer Proposal
  pub send_proposal : Proposal → List Peer → List Endorsement
  pub send_failure : Proposal → List Peer → Option Text
  pub result_of : Bytes → Option Bytes
  pub verify : Endorsement → Option Text
  pub register_tx_status : Text → Option Text
  pub create_transaction : Option Proposal → List Endorsement → Option Text
  pub send_transaction : Option Proposal → List Endorsement → Option Text
  pub tx_outcome : TxOutcome

abbrev pub Handler : Type 0
Handler = Request → Outcome Request

abbrev pub fail : HandlerError → Request → Outcome Request
fail e r = done (record r { error = some e })

-- The last lines of a handler.
abbrev pub delegate : Option Handler → Handler
delegate none r = done r
delegate (some next) r = next r

-- The status lies from 200 to 399.
abbrev pub is_success : ℤ → Bool
is_success (pos n) = leb 200 n && ltb n 400
is_success (negsuc n) = false

-- The loop of `validate` after the first response.
unfoldable pub validate_rest : Bytes → Bytes → List Endorsement → Outcome (Option HandlerError)
validate_rest payload body [] = done none
validate_rest payload body (r ∷ rs) =
    let rest = validate_rest payload body rs in
    deref r.response >>= λ x.
    if is_success x.response_status
    then if text_eq payload r.payload && text_eq body x.response_payload
      then rest
      else done (some endorsement_mismatch)
    else done (some bad_response)

unfoldable pub validate : List Endorsement → Outcome (Option HandlerError)
unfolding validate_rest
validate [] = done none
validate (r ∷ rs) = deref r.response >>= λ x.
    if is_success x.response_status
    then validate_rest r.payload x.response_payload rs
    else done (some bad_response)

-- `Handle` of EndorsementValidationHandler.
unfoldable pub validate_endorsements : Option Handler → Handler
unfolding validate
validate_endorsements next r =
    validate r.responses >>= λ e. elim e [ some x ↦ fail x r | none ↦ delegate next r ]

-- `newInvocationChain`: the collections of the chaincode itself are those of its last call.
unfoldable pub add_calls :
    ChaincodeCall → List ChaincodeCall → List ChaincodeCall → List ChaincodeCall
add_calls first others [] = first ∷ others
add_calls first others (c ∷ cs) =
    let same = text_eq c.id first.id in
    add_calls (if same then record first { collections = c.collections } else first)
      (if same then others else others ++ c ∷ []) cs

unfoldable pub new_invocation_chain : Request → List ChaincodeCall
new_invocation_chain r =
    add_calls (record { id = r.chaincode_id; collections = [] }) [] r.invocation_chain

module _ (outside : Outside) where
  unfoldable pub verify_all : List Endorsement → Option HandlerError
  verify_all [] = none
  verify_all (r ∷ rs) =
      let rest = verify_all rs in
      elim (outside.verify r) [ some e ↦ some bad_signature | none ↦ rest ]

  -- `Handle` of SignatureValidationHandler.
  unfoldable pub validate_signatures : Option Handler → Handler
  unfolding verify_all
  validate_signatures next r = elim (verify_all r.responses) [
    | some e ↦ fail e r
    | none ↦ delegate next r
  ]

  -- The wait of CommitTxHandler for the status of the transaction.
  unfoldable pub await_status : Option Handler → Handler
  await_status next r = elim outside.tx_outcome [
    | context_done ↦ fail timed_out r
    | tx_status code ↦
        if code == 0
        then delegate next (record r { tx_validation_code = code })
        else fail invalid_transaction (record r { tx_validation_code = code })
  ]

  -- `Handle` of CommitTxHandler.
  unfoldable pub commit : Option Handler → Handler
  unfolding await_status
  commit next r = elim (outside.register_tx_status r.transaction_id) [
    | some e ↦ fail not_registered r
    | none ↦ elim (outside.create_transaction r.proposal r.responses) [
      | some e ↦ fail not_sent r
      | none ↦ elim (outside.send_transaction r.proposal r.responses) [
        | some e ↦ fail not_sent (record r { sent = r.sent ++ r.responses ∷ [] })
        | none ↦ await_status next (record r { sent = r.sent ++ r.responses ∷ [] })
      ]
    ]
  ]

  -- The payload and the status of the first response.
  unfoldable pub take_result : Option Handler → List Endorsement → Handler
  take_result next [] r = delegate next r
  take_result next (e ∷ es) r = elim (outside.result_of e.payload) [
    | none ↦ fail undecodable r
    | some result ↦ delegate next (record r { result = result; result_status = e.chaincode_status })
  ]

  unfoldable pub send_proposed : List Peer → Answer Proposal → Proposed
  send_proposed targets (EventClient.err e) = record {
    proposed = none;
    endorsements = [];
    failure = some e;
  }
  send_proposed targets (EventClient.ok proposal) = record {
    proposed = some proposal;
    endorsements = outside.send_proposal proposal targets;
    failure = outside.send_failure proposal targets;
  }

  unfoldable pub propose_with : Text → List Peer → Answer Text → Proposed
  propose_with chaincode_id targets (EventClient.err e) = record {
    proposed = none;
    endorsements = [];
    failure = some e;
  }
  propose_with chaincode_id targets (EventClient.ok txh) =
      send_proposed targets (outside.create_proposal txh chaincode_id)

  unfoldable pub create_and_send_transaction_proposal : Text → List Peer → Proposed
  unfolding send_proposed propose_with
  create_and_send_transaction_proposal chaincode_id targets =
      propose_with chaincode_id targets outside.create_header

  unfoldable pub endorse_proposed : Option Handler → Proposed → Handler
  endorse_proposed next x r = deref x.proposed >>= λ proposal. elim x.failure [
    | some e ↦
        fail endorsement_failed
          (record r { proposal = some proposal; transaction_id = proposal.txn_id })
    | none ↦ take_result next x.endorsements (record r {
      proposal = some proposal;
      transaction_id = proposal.txn_id;
      responses = x.endorsements;
    })
  ]

  unfoldable pub endorse_targets : Option Handler → List Peer → Handler
  endorse_targets next [] r = fail no_targets r
  endorse_targets next (p ∷ ps) r =
      endorse_proposed next (create_and_send_transaction_proposal r.chaincode_id (p ∷ ps)) r

  -- `Handle` of EndorsementHandler. It reads the proposal before it tests the error.
  unfoldable pub endorse : Option Handler → Handler
  unfolding take_result endorse_proposed endorse_targets
  endorse next r = endorse_targets next r.targets r

  -- `Handle` of ProposalProcessorHandler.
  unfoldable pub select_processors : Option Handler → Handler
  select_processors next r = elim r.targets [
    | p ∷ ps ↦ delegate next r
    | [] ↦ elim (outside.get_endorsers (new_invocation_chain r)) [
      | EventClient.err e ↦ fail no_endorsers r
      | EventClient.ok peers ↦ delegate next (record r { targets = peers })
    ]
  ]

  -- `NewQueryHandler`.
  unfoldable pub query : Option Handler → Handler
  unfolding select_processors endorse validate_endorsements validate_signatures
  query next =
      select_processors
        (some (endorse (some (validate_endorsements (some (validate_signatures next))))))

  -- The handlers that `NewExecuteHandler` puts after the endorsement.
  unfoldable pub validate_and_commit : Option Handler → Handler
  unfolding validate_endorsements validate_signatures commit
  validate_and_commit next = validate_endorsements (some (validate_signatures (some (commit next))))
