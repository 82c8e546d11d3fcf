-- ===== src/Channel/Agreeing.antt =====
-- txnhandler.go: what is sent, and what a query returns.
use fabric_sdk_go_gm.Common.{
  ◌≡◌, ◌≢◌, refl, sym, ap, ◌∙◌, subst, true, ◌&&◌, ◌⊎◌, inl, inr, List, [], ◌∷◌, ◌++◌, Option, none,
  some, All, arith, ◌==◌, if◌then◌else◌,
}
use fabric_sdk_go_gm.Common.Text.{Text, text_eq, text_eq→eq}
use fabric_sdk_go_gm.Common.Outcome.{
  Outcome, panics, nil_dereference, ◌>>=◌, deref, Returns, Returns->>=, Returns-mono, Returns-if,
  Returns-option,
}
use fabric_sdk_go_gm.Fab.{Bytes}
use fabric_sdk_go_gm.Selection.{Peer}
use fabric_sdk_go_gm.EventClient
use fabric_sdk_go_gm.Channel.{
  ChaincodeResponse, Endorsement, HandlerError, bad_signature, invalid_transaction, timed_out,
  Request, Outside, TxOutcome, tx_status, context_done, Handler, fail, delegate, is_success,
  validate_rest, validate, verify_all, validate_signatures, await_status, commit,
  validate_and_commit, endorse, endorse_targets, create_and_send_transaction_proposal, propose_with,
  send_proposed,
}

abbrev pub Succeeds : Option ChaincodeResponse → Type 0
Succeeds none = ⊥
Succeeds (some x) = is_success x.response_status ≡ true

abbrev pub body_of : Option ChaincodeResponse → Bytes
body_of none = []
body_of (some x) = x.response_payload

abbrev pub HasResponse : Endorsement → Type 0
HasResponse e = e.response ≢ none

-- An endorsement with a status of success, and with the payloads given.
abbrev pub IsSame : Bytes → Bytes → Endorsement → Type 0
IsSame payload body e = Succeeds e.response × (e.payload ≡ payload) × (body_of e.response ≡ body)

-- All endorsements have a status of success and the payloads of the first.
abbrev pub Agree : List Endorsement → Type 0
Agree [] = Unit
Agree (e ∷ es) = Succeeds e.response × All (IsSame e.payload (body_of e.response)) es

abbrev pub Checked : (P : Type 0) → Option HandlerError → Type 0
Checked P none = P
Checked P (some e) = Unit

pub Returns-deref :
    {A B : Type 0} (P : A → Type 0) (o : Option B) (f : B → Outcome A)
    → o ≢ none
    → ((b : B) → o ≡ some b → Returns P (f b))
    → Returns P (deref o >>= f)
Returns-deref P none f n k = absurd (n refl)
Returns-deref P (some b) f n k = k b refl

IsSame-from :
    (payload body : Bytes) (e : Endorsement) (x : ChaincodeResponse)
    → e.response ≡ some x
    → is_success x.response_status ≡ true
    → (text_eq payload e.payload && text_eq body x.response_payload) ≡ true
    → IsSame payload body e
IsSame-from payload body e x f s t =
    let first : text_eq payload e.payload ≡ true = ground (arith, t) in
    let second : text_eq body x.response_payload ≡ true = ground (arith, t) in
    (
      subst Succeeds (sym f) s,
      sym (text_eq→eq payload e.payload first),
      ap body_of f ∙ sym (text_eq→eq body x.response_payload second),
    )

and-Checked : (P Q : Type 0) (o : Option HandlerError) → P → Checked Q o → Checked (P × Q) o
and-Checked P Q none p q = (p, q)
and-Checked P Q (some e) p q = tt

validate_rest-Checked :
    (payload body : Bytes) (es : List Endorsement)
    → All HasResponse es
    → Returns (Checked (All (IsSame payload body) es)) (validate_rest payload body es)
unfolding validate_rest
validate_rest-Checked payload body [] a = tt
validate_rest-Checked payload body (e ∷ es) a =
    Returns-deref (Checked (All (IsSame payload body) (e ∷ es))) e.response _ a.0 λ x f.
      Returns-if (Checked (All (IsSame payload body) (e ∷ es))) (is_success x.response_status) _ _
        (λ s.
          Returns-if (Checked (All (IsSame payload body) (e ∷ es)))
            (text_eq payload e.payload && text_eq body x.response_payload) _ _
            (λ t.
              Returns-mono (Checked (All (IsSame payload body) es))
                (Checked (All (IsSame payload body) (e ∷ es))) (validate_rest payload body es)
                (λ o c.
                  and-Checked (IsSame payload body e) (All (IsSame payload body) es) o
                    (IsSame-from payload body e x f s t) c)
                (validate_rest-Checked payload body es a.1))
            (λ _. tt))
        (λ _. tt)

pub validate-Checked :
    (es : List Endorsement) → All HasResponse es → Returns (Checked (Agree es)) (validate es)
unfolding validate
validate-Checked [] a = tt
validate-Checked (e ∷ es) a = Returns-deref (Checked (Agree (e ∷ es))) e.response _ a.0 λ x f.
    Returns-if (Checked (Agree (e ∷ es))) (is_success x.response_status) _ _
      (λ s.
        Returns-mono (Checked (All (IsSame e.payload x.response_payload) es))
          (Checked (Agree (e ∷ es))) (validate_rest e.payload x.response_payload es)
          (λ o c.
            and-Checked (Succeeds e.response) (All (IsSame e.payload (body_of e.response)) es) o
              (subst Succeeds (sym f) s)
              (subst (λ b. Checked (All (IsSame e.payload b) es) o) (sym (ap body_of f)) c))
          (validate_rest-Checked e.payload x.response_payload es a.1))
      (λ _. tt)

module _ (outside : Outside) where
  abbrev pub IsVerified : Endorsement → Type 0
  IsVerified e = outside.verify e ≡ none

  pub verify_all-Checked :
      (es : List Endorsement) → Checked (All IsVerified es) (verify_all outside es)
  unfolding verify_all
  verify_all-Checked [] = tt
  verify_all-Checked (e ∷ es) = first (verify_all-Checked es) (outside.verify e) refl
    where
      first :
          Checked (All IsVerified es) (verify_all outside es)
          → (o : Option Text) → outside.verify e ≡ o
          → Checked
              (All IsVerified (e ∷ es))
              (elim o [ some x ↦ some bad_signature | none ↦ verify_all outside es ])
      first rest none n =
          and-Checked (IsVerified e) (All IsVerified es) (verify_all outside es) n rest
      first rest (some x) n = tt

  -- The transaction was sent once, with endorsements that agree and are verified.
  abbrev pub IsSent : Request → Request → Type 0
  IsSent r r' =
      (r'.sent ≡ r.sent ++ r.responses ∷ []) × Agree r.responses × All IsVerified r.responses

  -- Without an error the transaction was sent and is valid; with an error it was not sent, or only
  -- with endorsements that agree and are verified.
  abbrev pub CommitsWith : Request → Request → Option HandlerError → Type 0
  CommitsWith r r' none = IsSent r r' × (r'.tx_validation_code ≡ 0)
  CommitsWith r r' (some e) = (r'.sent ≡ r.sent) ⊎ IsSent r r'

  abbrev pub Commits : Request → Request → Type 0
  Commits r r' = CommitsWith r r' r'.error

  awaits :
      (r c : Request)
      → r.error ≡ none
      → c.error ≡ none
      → IsSent r c
      → Returns (Commits r) (await_status outside none c)
  unfolding await_status
  awaits r c n m s = status outside.tx_outcome
    where
      status :
          (o : TxOutcome)
          → Returns (Commits r) (elim o [
            | context_done ↦ fail timed_out c
            | tx_status code ↦
                if code == 0
                then delegate none (record c { tx_validation_code = code })
                else fail invalid_transaction (record c { tx_validation_code = code })
          ])
      status context_done = inr s
      status (tx_status code) =
          Returns-if (Commits r) (code == 0) _ _
            (λ z.
              subst (CommitsWith r (record c { tx_validation_code = code })) (sym m)
                (s, ground (arith, z)))
            (λ _. inr s)

  commit-Commits :
      (r : Request)
      → r.error ≡ none
      → Agree r.responses
      → All IsVerified r.responses
      → Returns (Commits r) (commit outside none r)
  unfolding commit
  commit-Commits r n a v =
      Returns-option (Commits r) (outside.register_tx_status r.transaction_id) _ _
        (λ _.
          Returns-option (Commits r) (outside.create_transaction r.proposal r.responses) _ _
            (λ _.
              Returns-option (Commits r) (outside.send_transaction r.proposal r.responses) _ _
                (λ _. awaits r (record r { sent = r.sent ++ r.responses ∷ [] }) n n (refl, a, v))
                (λ e _. inr (refl, a, v)))
            (λ e _. inl refl))
        (λ e _. inl refl)

  -- If the handlers after the endorsement get a request without an error, all of whose endorsements
  -- have a response, then they return. Without an error the transaction was sent once and is valid,
  -- all endorsements have a status of success and the payloads of the first, and their signatures are
  -- verified; with an error the transaction was not sent, or was sent once with such endorsements.
  pub validate_and_commit-Commits :
      (r : Request)
      → r.error ≡ none
      → All HasResponse r.responses
      → Returns (Commits r) (validate_and_commit outside none r)
  unfolding validate_and_commit
  validate_and_commit-Commits r n h =
      Returns->>= (Checked (Agree r.responses)) (Commits r) (validate r.responses) _
        (validate-Checked r.responses h) λ o c. validated o c
    where
      verified :
          Agree r.responses
          → (o : Option HandlerError) → Checked (All IsVerified r.responses) o
          → Returns (Commits r) (elim o [ some e ↦ fail e r | none ↦ commit outside none r ])
      verified a none v = commit-Commits r n a v
      verified a (some e) v = inl refl

      validated :
          (o : Option HandlerError)
          → Checked (Agree r.responses) o
          → Returns (Commits r) (elim o [
            | some e ↦ fail e r
            | none ↦ validate_signatures outside (some (commit outside none)) r
          ])
      validated none a =
          verified a (verify_all outside r.responses) (verify_all-Checked r.responses)
      validated (some e) a = inl refl

  without_header :
      (chaincode_id : Text) (targets : List Peer) (e : Text)
      → outside.create_header ≡ EventClient.err e
      → (create_and_send_transaction_proposal outside chaincode_id targets).proposed ≡ none
  unfolding create_and_send_transaction_proposal
  without_header chaincode_id targets e h =
      ap (λ x. (propose_with outside chaincode_id targets x).proposed) h

  without_proposal :
      (chaincode_id : Text) (targets : List Peer) (txh e : Text)
      → outside.create_header ≡ EventClient.ok txh
      → outside.create_proposal txh chaincode_id ≡ EventClient.err e
      → (create_and_send_transaction_proposal outside chaincode_id targets).proposed ≡ none
  unfolding create_and_send_transaction_proposal
  without_proposal chaincode_id targets txh e h c =
      ap (λ x. (propose_with outside chaincode_id targets x).proposed) h
      ∙ ap (λ x. (send_proposed outside targets x).proposed) c

  targets-panic :
      (next : Option Handler) (r : Request) (targets : List Peer)
      → targets ≢ []
      → (create_and_send_transaction_proposal outside r.chaincode_id targets).proposed ≡ none
      → endorse_targets outside next targets r ≡ panics nil_dereference
  unfolding endorse
  targets-panic next r [] n e = absurd (n refl)
  targets-panic next r (p ∷ ps) n e = rw e refl

  -- The header of a transaction cannot be created, or the proposal with the header cannot.
  abbrev pub Fails : Text → Type 0
  Fails chaincode_id =
      ((e : Text) × (outside.create_header ≡ EventClient.err e))
      ⊎ ((txh : Text) × (e : Text) × (outside.create_header ≡ EventClient.ok txh)
          × (outside.create_proposal txh chaincode_id ≡ EventClient.err e))

  -- If the header of the transaction or its proposal cannot be created, the endorsement handler
  -- panics for a request with targets, whatever the next handler.
  pub endorse-panics :
      (next : Option Handler) (r : Request)
      → r.targets ≢ []
      → Fails r.chaincode_id
      → endorse outside next r ≡ panics nil_dereference
  unfolding endorse
  endorse-panics next r n (inl (e, h)) =
      targets-panic next r r.targets n (without_header r.chaincode_id r.targets e h)
  endorse-panics next r n (inr (txh, e, h, c)) =
      targets-panic next r r.targets n (without_proposal r.chaincode_id r.targets txh e h c)
