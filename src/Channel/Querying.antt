-- ===== src/Channel/Querying.antt =====
-- txnhandler.go: what the handlers of a query return.
use fabric_sdk_go_gm.Common.{◌≡◌, ap, ◌∙◌, refl, sym, subst, List, [], ◌∷◌, Option, none, some, All}
use fabric_sdk_go_gm.Common.Outcome.{Returns, Returns->>=, Returns-option}
use fabric_sdk_go_gm.Selection.{Peer}
use fabric_sdk_go_gm.Fab.{Bytes}
use fabric_sdk_go_gm.Common.Text.{Text}
use fabric_sdk_go_gm.EventClient
use fabric_sdk_go_gm.EventClient.{Answer}
use fabric_sdk_go_gm.Channel.{
  Endorsement, HandlerError, Proposal, create_and_send_transaction_proposal, propose_with,
  send_proposed, endorse_proposed, undecodable, no_endorsers, Request, Outside, Handler, fail,
  delegate, validate, verify_all, validate_endorsements, validate_signatures, take_result,
  endorse_targets, endorse, new_invocation_chain, query,
}
use fabric_sdk_go_gm.Channel.Agreeing.{
  HasResponse, Agree, IsVerified, Checked, validate-Checked, verify_all-Checked,
}

module _ (outside : Outside) where
  -- What stands in the result is that of the first endorsement.
  abbrev pub IsResultOf : List Endorsement → Bytes → Type 0
  IsResultOf [] result = Unit
  IsResultOf (e ∷ es) result = outside.result_of e.payload ≡ some result

  abbrev pub AnswersWith : Request → Option HandlerError → Type 0
  AnswersWith r (some e) = r.sent ≡ []
  AnswersWith r none =
      (r.sent ≡ [])
      × Agree r.responses
      × All (IsVerified outside) r.responses
      × IsResultOf r.responses r.result

  -- No transaction was sent. Without an error the endorsements agree and are verified, and the result
  -- is that of the first of them.
  abbrev pub Answers : Request → Type 0
  Answers r = AnswersWith r r.error

  abbrev checks : Handler
  checks = validate_endorsements (some (validate_signatures outside none))

  checks-Answers :
      (r : Request)
      → r.error ≡ none
      → r.sent ≡ []
      → All HasResponse r.responses
      → IsResultOf r.responses r.result
      → Returns Answers (checks r)
  unfolding validate_endorsements validate_signatures
  checks-Answers r n z h t =
      Returns->>= (Checked (Agree r.responses)) Answers (validate r.responses) _
        (validate-Checked r.responses h) λ o c. validated o c
    where
      verified :
          Agree r.responses
          → (o : Option HandlerError) → Checked (All (IsVerified outside) r.responses) o
          → Returns Answers (elim o [ some e ↦ fail e r | none ↦ delegate none r ])
      verified a none v = subst (AnswersWith r) (sym n) (z, a, v, t)
      verified a (some e) v = z

      validated :
          (o : Option HandlerError)
          → Checked (Agree r.responses) o
          → Returns Answers
              (elim o [ some e ↦ fail e r | none ↦ validate_signatures outside none r ])
      validated none a =
          verified a (verify_all outside r.responses) (verify_all-Checked outside r.responses)
      validated (some e) a = z

  takes-Answers :
      (es : List Endorsement) (r : Request)
      → r.responses ≡ es
      → r.error ≡ none
      → r.sent ≡ []
      → All HasResponse es
      → Returns Answers (take_result outside (some checks) es r)
  unfolding take_result
  takes-Answers [] r e n z h =
      checks-Answers r n z (subst (All HasResponse) (sym e) h)
        (subst (λ l. IsResultOf l r.result) (sym e) tt)
  takes-Answers (x ∷ es) r e n z h = taken (outside.result_of x.payload) refl
    where
      taken :
          (o : Option Bytes)
          → outside.result_of x.payload ≡ o
          → Returns Answers (elim o [
            | none ↦ fail undecodable r
            | some result ↦
                delegate
                  (some checks)
                  (record r { result = result; result_status = x.chaincode_status })
          ])
      taken none f = z
      taken (some result) f =
          checks-Answers (record r { result = result; result_status = x.chaincode_status }) n z
            (subst (All HasResponse) (sym e) h) (subst (λ l. IsResultOf l result) (sym e) f)

  -- A header and, for the chaincode, a proposal can be created, and all endorsements have a response.
  pub record IsAnswering (chaincode_id : Text) : Type 0 where
    pub txh : Text
    pub proposal : Proposal
    pub has_header : outside.create_header ≡ EventClient.ok txh
    pub has_proposal : outside.create_proposal txh chaincode_id ≡ EventClient.ok proposal
    pub have_responses :
        (targets : List Peer) → All HasResponse (outside.send_proposal proposal targets)

  proposed-ok :
      (chaincode_id : Text) (targets : List Peer) (a : IsAnswering chaincode_id)
      → create_and_send_transaction_proposal outside chaincode_id targets ≡ record {
        proposed = some a.proposal;
        endorsements = outside.send_proposal a.proposal targets;
        failure = outside.send_failure a.proposal targets;
      }
  unfolding create_and_send_transaction_proposal
  proposed-ok chaincode_id targets a =
      ap (propose_with outside chaincode_id targets) a.has_header
      ∙ ap (send_proposed outside targets) a.has_proposal

  endorse-Answers :
      (r : Request) (targets : List Peer)
      → r.error ≡ none
      → r.sent ≡ []
      → IsAnswering r.chaincode_id
      → Returns Answers (endorse_targets outside (some checks) targets r)
  unfolding endorse
  endorse-Answers r [] n z a = z
  endorse-Answers r (p ∷ ps) n z a =
      let endorsements = outside.send_proposal a.proposal (p ∷ ps) in
      subst (λ x. Returns Answers (endorse_proposed outside (some checks) x r))
        (sym (proposed-ok r.chaincode_id (p ∷ ps) a))
        (Returns-option Answers (outside.send_failure a.proposal (p ∷ ps)) _ _
          (λ _.
            takes-Answers endorsements
              (record r {
                proposal = some a.proposal;
                transaction_id = a.proposal.txn_id;
                responses = endorsements;
              })
              refl n z (a.have_responses (p ∷ ps)))
          (λ f _. z))

  -- If a header and a proposal can be created for the chaincode, and all endorsements have responses,
  -- then a query with a request without an error, for which nothing was sent, returns and sends no
  -- transaction. Without an error the endorsements have a status of success and the payloads of the
  -- first, their signatures are verified, and the result is that of the first.
  pub query-Answers :
      (r : Request)
      → r.error ≡ none
      → r.sent ≡ []
      → IsAnswering r.chaincode_id
      → Returns Answers (query outside none r)
  unfolding query
  query-Answers r n z a = selected r.targets refl
    where
      asked :
          (o : Answer (List Peer))
          → Returns Answers (elim o [
            | EventClient.err e ↦ fail no_endorsers r
            | EventClient.ok peers ↦
                delegate (some (endorse outside (some checks))) (record r { targets = peers })
          ])
      asked (EventClient.err e) = z
      asked (EventClient.ok peers) = endorse-Answers (record r { targets = peers }) peers n z a

      selected :
          (ts : List Peer)
          → r.targets ≡ ts
          → Returns Answers (elim ts [
            | p ∷ ps ↦ delegate (some (endorse outside (some checks))) r
            | [] ↦ elim (outside.get_endorsers (new_invocation_chain r)) [
              | EventClient.err e ↦ fail no_endorsers r
              | EventClient.ok peers ↦
                  delegate (some (endorse outside (some checks))) (record r { targets = peers })
            ]
          ])
      selected [] e = asked (outside.get_endorsers (new_invocation_chain r))
      selected (p ∷ ps) e = endorse-Answers r r.targets n z a
