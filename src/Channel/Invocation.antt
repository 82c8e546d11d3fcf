-- ===== src/Channel/Invocation.antt =====
-- txnhandler.go: the calls for which endorsers are selected.
use mathlib.Core.List.{append-nil, append_assoc}
use fabric_sdk_go_gm.Common.{
  ◌≡◌, sym, ap, ◌∙◌, Bool, true, false, List, [], ◌∷◌, ◌++◌, if◌then◌else◌,
}
use fabric_sdk_go_gm.Common.Text.{Text, text_eq}
use fabric_sdk_go_gm.Channel.{ChaincodeCall, Request, add_calls, new_invocation_chain}

-- The calls of other chaincodes.
abbrev pub calls_besides : Text → List ChaincodeCall → List ChaincodeCall
calls_besides id [] = []
calls_besides id (c ∷ cs) =
    let rest = calls_besides id cs in if text_eq c.id id then rest else c ∷ rest

-- The collections of the last call of a chaincode, or those given.
abbrev pub last_collections : Text → List Text → List ChaincodeCall → List Text
last_collections id before [] = before
last_collections id before (c ∷ cs) =
    last_collections id (if text_eq c.id id then c.collections else before) cs

add_calls_lem :
    (first : ChaincodeCall) (others cs : List ChaincodeCall)
    → add_calls first others cs
      ≡ record first { collections = last_collections first.id first.collections cs } ∷ others
        ++ calls_besides first.id cs
unfolding add_calls
add_calls_lem first others [] = ap (λ l. first ∷ l) (sym (append-nil others))
add_calls_lem first others (c ∷ cs) =
    step (text_eq c.id first.id)
      (add_calls_lem (record first { collections = c.collections }) others cs)
      (add_calls_lem first (others ++ c ∷ []) cs
        ∙ ap
            (λ l. record first { collections = last_collections first.id first.collections cs } ∷ l)
            (append_assoc others (c ∷ []) (calls_besides first.id cs)))
  where
    step :
        (b : Bool)
        → add_calls (record first { collections = c.collections }) others cs
          ≡ record first { collections = last_collections first.id c.collections cs } ∷ others
            ++ calls_besides first.id cs
        → add_calls first (others ++ c ∷ []) cs
          ≡ record first { collections = last_collections first.id first.collections cs } ∷ others
            ++ c ∷ calls_besides first.id cs
        → add_calls
            (if b then record first { collections = c.collections } else first)
            (if b then others else others ++ c ∷ [])
            cs
          ≡ record first {
            collections =
                last_collections first.id (if b then c.collections else first.collections) cs;
          }
              ∷ others
            ++ (if b then calls_besides first.id cs else c ∷ calls_besides first.id cs)
    step true same other = same
    step false same other = other

-- The calls for which endorsers are selected are first one of the chaincode of the request, with the
-- collections of its last call in the invocation chain, or with none if it is not called there, and
-- then the calls of other chaincodes in the order of the invocation chain.
pub new_invocation_chain_lem :
    (r : Request)
    → new_invocation_chain r
      ≡ record {
        id = r.chaincode_id;
        collections = last_collections r.chaincode_id [] r.invocation_chain;
      }
        ∷ calls_besides r.chaincode_id r.invocation_chain
unfolding new_invocation_chain
new_invocation_chain_lem r =
    add_calls_lem (record { id = r.chaincode_id; collections = [] }) [] r.invocation_chain
