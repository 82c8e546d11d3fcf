-- ===== src/Channel/Tests.antt =====
-- The theorems on the handlers at concrete requests.
use fabric_sdk_go_gm.Common.{◌≡◌, ◌≢◌, refl, [], ◌∷◌, none, some, inl, All}
use fabric_sdk_go_gm.Common.Int.{pos}
use fabric_sdk_go_gm.Common.Text.{Text, text_eq}
use fabric_sdk_go_gm.Common.Outcome.{panics, nil_dereference, Returns}
use fabric_sdk_go_gm.Selection.{Peer}
use fabric_sdk_go_gm.EventClient
use fabric_sdk_go_gm.Channel.{
  Endorsement, Request, Outside, tx_status, endorse, validate_and_commit, query,
  new_invocation_chain, add_calls,
}
use fabric_sdk_go_gm.Channel.Querying.{IsAnswering, Answers, query-Answers}
use fabric_sdk_go_gm.Channel.Invocation.{last_collections, calls_besides, new_invocation_chain_lem}
use fabric_sdk_go_gm.Channel.Agreeing.{
  HasResponse, Commits, validate_and_commit-Commits, endorse-panics,
}

abbrev peer : Peer
peer = record { addr = 1; url = 1 ∷ []; msp_id = 1 ∷ []; block_height = none }

abbrev endorsement : Text → Endorsement
endorsement name = record {
  endorser = name;
  chaincode_status = pos 200;
  payload = 7 ∷ 8 ∷ [];
  response = some (record { response_status = pos 200; response_payload = 8 ∷ [] });
}

abbrev outside : Outside
outside = record {
  get_endorsers = λ calls. EventClient.ok (peer ∷ []);
  create_header = EventClient.ok (9 ∷ []);
  create_proposal = λ txh id. EventClient.ok (record { txn_id = 5 ∷ [] });
  send_proposal = λ p targets. endorsement (1 ∷ []) ∷ endorsement (2 ∷ []) ∷ [];
  send_failure = λ p targets. none;
  result_of = λ payload. some (8 ∷ []);
  verify = λ e. none;
  register_tx_status = λ id. none;
  create_transaction = λ p es. none;
  send_transaction = λ p es. none;
  tx_outcome = tx_status 0;
}

-- The transactor cannot make the header of the transaction.
abbrev without_header : Outside
without_header = record outside { create_header = EventClient.err (9 ∷ []) }

abbrev request : Request
request = record {
  chaincode_id = 4 ∷ [];
  invocation_chain = [];
  targets = peer ∷ [];
  proposal = none;
  transaction_id = [];
  responses = [];
  result = [];
  result_status = pos 0;
  tx_validation_code = 255;
  error = none;
  sent = [];
}

abbrev endorsed_request : Request
endorsed_request = record request { responses = endorsement (1 ∷ []) ∷ endorsement (2 ∷ []) ∷ [] }

have_responses : All HasResponse endorsed_request.responses
have_responses = ((λ e. cc), ((λ e. cc), tt))

validate_and_commit-Commits_example :
    Returns (Commits outside endorsed_request) (validate_and_commit outside none endorsed_request)
validate_and_commit-Commits_example =
    validate_and_commit-Commits outside endorsed_request refl have_responses

some_target : request.targets ≢ []
some_target = λ e. cc

endorse-panics_example : endorse without_header none request ≡ panics nil_dereference
endorse-panics_example = endorse-panics without_header none request some_target (inl (9 ∷ [], refl))

answering : IsAnswering outside request.chaincode_id
answering = record {
  txh = 9 ∷ [];
  proposal = record { txn_id = 5 ∷ [] };
  has_header = refl;
  has_proposal = refl;
  have_responses = λ targets. have_responses;
}

query-Answers_example : Returns (Answers outside) (query outside none request)
query-Answers_example = query-Answers outside request refl refl answering

abbrev calling_request : Request
calling_request = record request {
  invocation_chain =
      record { id = 6 ∷ []; collections = [] }
      ∷ record { id = 4 ∷ []; collections = (3 ∷ []) ∷ [] }
      ∷ [];
}

-- The collections of the chaincode itself join its call.
chain :
    new_invocation_chain calling_request
    ≡ record { id = 4 ∷ []; collections = (3 ∷ []) ∷ [] }
      ∷ record { id = 6 ∷ []; collections = [] }
      ∷ []
unfolding new_invocation_chain add_calls text_eq
chain = refl

new_invocation_chain_lem_example :
    new_invocation_chain calling_request
    ≡ record {
      id = 4 ∷ [];
      collections = last_collections (4 ∷ []) [] calling_request.invocation_chain;
    }
      ∷ calls_besides (4 ∷ []) calling_request.invocation_chain
new_invocation_chain_lem_example = new_invocation_chain_lem calling_request
