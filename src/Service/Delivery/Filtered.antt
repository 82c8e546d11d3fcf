-- ===== src/Service/Delivery/Filtered.antt =====
-- dispatcher.go: the messages that a filtered block brings to the consumers.
use mathlib.Core.List.{append-nil}
use fabric_sdk_go_gm.Common.{
  ℕ, ◌≡◌, ◌≢◌, refl, sym, Bool, true, false, List, [], ◌∷◌, ◌++◌, Option, none, some, ◌==◌,
  if◌then◌else◌,
}
use fabric_sdk_go_gm.Common.Text.{Text, text_eq}
use fabric_sdk_go_gm.Common.Map.{lookup, values}
use fabric_sdk_go_gm.Common.Outcome.{done, ◌>>=◌, deref, Returns}
use fabric_sdk_go_gm.Fab.{
  FilteredBlock, FilteredTransaction, FilteredChaincodeAction, ChaincodeEvent, Message,
  filtered_block_message, tx_status_message, cc_message,
}
use fabric_sdk_go_gm.Fab.Channels.{Channels, send}
use fabric_sdk_go_gm.Service.Registrations.{FilteredBlockReg, ChaincodeReg, TxStatusReg}
use fabric_sdk_go_gm.Service.Publish.{
  Publisher, new_filtered_block_event, new_tx_status_event, new_chaincode_event,
  check_filtered_block_registrations, publish_tx_status_events, matches_cc_event, publish_cc_events,
  publish_actions, publish_tx_cc_events, publish_transactions, publish_filtered_block_events,
}
use fabric_sdk_go_gm.Service.Live.Sending.{AllCompiled}
use fabric_sdk_go_gm.Service.Delivery.{
  AllOpen, AlwaysReady, on, Delivered, send-Delivered, send_if-Delivered, then-Delivered,
}

-- Whether a chaincode registration is for the event.
abbrev pub is_for : ChaincodeEvent → ChaincodeReg → Bool
is_for e reg =
    if text_eq reg.chaincode_id e.chaincode_id
    then elim reg.event_reg_exp [ none ↦ false | some reg_exp ↦ reg_exp e.event_name ]
    else false

-- What the parts of a filtered block bring to the channel `c`.
module _ (p : Publisher) (c : ℕ) where
  abbrev pub fblock_messages : FilteredBlock → List FilteredBlockReg → List Message
  fblock_messages fblock [] = []
  fblock_messages fblock (reg ∷ regs) =
      on reg.eventch c (filtered_block_message (new_filtered_block_event fblock p.source_url))
      ++ fblock_messages fblock regs

  abbrev pub tx_messages : FilteredTransaction → ℕ → List (Text × TxStatusReg) → List Message
  tx_messages tx n regs = elim (lookup tx.txid regs) [
    | none ↦ []
    | some reg ↦
        on reg.eventch c
          (tx_status_message (new_tx_status_event tx.txid tx.tx_validation_code n p.source_url))
  ]

  abbrev pub cc_messages : ChaincodeEvent → ℕ → List ChaincodeReg → List Message
  cc_messages e n [] = []
  cc_messages e n (reg ∷ regs) =
      (if is_for e reg
        then on reg.eventch c (
            cc_message
              (new_chaincode_event e.chaincode_id e.event_name e.tx_id e.payload n p.source_url))
        else [])
      ++ cc_messages e n regs

  abbrev pub action_messages : List FilteredChaincodeAction → ℕ → List ChaincodeReg → List Message
  action_messages [] n regs = []
  action_messages (action ∷ actions) n regs =
      elim action.chaincode_event [ none ↦ [] | some e ↦ cc_messages e n regs ]
      ++ action_messages actions n regs

  -- Chaincode events of valid transactions only.
  abbrev pub tx_cc_messages : FilteredTransaction → ℕ → List ChaincodeReg → List Message
  tx_cc_messages tx n regs =
      if tx.tx_validation_code == p.valid
      then elim tx.transaction_actions [ none ↦ [] | some actions ↦ action_messages actions n regs ]
      else []

  abbrev pub txs_messages :
      List FilteredTransaction
      → ℕ
      → List (Text × TxStatusReg)
      → List (Text × ChaincodeReg)
      → List Message
  txs_messages [] n tx_regs cc_regs = []
  txs_messages (tx ∷ txs) n tx_regs cc_regs =
      tx_messages tx n tx_regs
      ++ (tx_cc_messages tx n (values cc_regs) ++ txs_messages txs n tx_regs cc_regs)

module _ (p : Publisher) (always : AlwaysReady p.ready) where
  nothing-Delivered : (s : Channels) → AllOpen s → Returns (Delivered (λ c. []) s) (done s)
  nothing-Delivered s a = (a, λ c. sym (append-nil (s c).log))

  fblocks-Delivered :
      (fblock : FilteredBlock) (regs : List FilteredBlockReg) (s : Channels)
      → AllOpen s
      → Returns
          (Delivered (λ c. fblock_messages p c fblock regs) s)
          (check_filtered_block_registrations p fblock regs s)
  unfolding check_filtered_block_registrations
  fblocks-Delivered fblock [] s a = nothing-Delivered s a
  fblocks-Delivered fblock (reg ∷ regs) s a =
      then-Delivered p always
        (λ c.
          on reg.eventch c (filtered_block_message (new_filtered_block_event fblock p.source_url)))
        (λ c. fblock_messages p c fblock regs) s _ _ (send-Delivered p always reg.eventch _ s a)
        (fblocks-Delivered fblock regs)

  tx-Delivered :
      (tx : FilteredTransaction) (n : ℕ) (regs : List (Text × TxStatusReg)) (s : Channels)
      → AllOpen s
      → Returns
          (Delivered (λ c. tx_messages p c tx n regs) s)
          (publish_tx_status_events p tx n regs s)
  unfolding publish_tx_status_events
  tx-Delivered tx n regs s a = found (lookup tx.txid regs)
    where
      found :
          (o : Option TxStatusReg)
          → Returns
              (Delivered
                (λ c. elim o [
                  | none ↦ []
                  | some reg ↦ on reg.eventch c (
                      tx_status_message
                        (new_tx_status_event tx.txid tx.tx_validation_code n p.source_url))
                ])
                s)
              (elim o [
                | none ↦ done s
                | some reg ↦
                    send p.ready p.timeout reg.eventch
                      (tx_status_message
                        (new_tx_status_event tx.txid tx.tx_validation_code n p.source_url))
                      s
              ])
      found none = nothing-Delivered s a
      found (some reg) = send-Delivered p always reg.eventch _ s a

  matches-is_for :
      (e : ChaincodeEvent) (reg : ChaincodeReg) (regs : List ChaincodeReg)
      → AllCompiled (reg ∷ regs)
      → matches_cc_event p e reg ≡ done (is_for e reg)
  unfolding matches_cc_event
  matches-is_for e reg regs k =
      decide (text_eq reg.chaincode_id e.chaincode_id) reg.event_reg_exp k.0
    where
      decide :
          (b : Bool) (o : Option (Text → Bool))
          → o ≢ none
          → (if b then (deref o >>= λ reg_exp. done (reg_exp e.event_name)) else done false)
            ≡ done (
                if b
                then (elim o [ none ↦ false | some reg_exp ↦ reg_exp e.event_name ])
                else false)
      decide true none h = absurd (h refl)
      decide true (some f) h = refl
      decide false o h = refl

  ccs-Delivered :
      (e : ChaincodeEvent) (n : ℕ) (regs : List ChaincodeReg) (s : Channels)
      → AllCompiled regs
      → AllOpen s
      → Returns (Delivered (λ c. cc_messages p c e n regs) s) (publish_cc_events p e n regs s)
  unfolding publish_cc_events
  ccs-Delivered e n [] s k a = nothing-Delivered s a
  ccs-Delivered e n (reg ∷ regs) s k a =
      let m =
        cc_message
          (new_chaincode_event e.chaincode_id e.event_name e.tx_id e.payload n p.source_url) in
      rw (matches-is_for e reg regs k) (
        then-Delivered p always (λ c. if is_for e reg then on reg.eventch c m else [])
          (λ c. cc_messages p c e n regs) s _ _
          (send_if-Delivered p always (is_for e reg) reg.eventch m s a)
          (λ t. ccs-Delivered e n regs t k.1))

  module _ (n : ℕ) (regs : List ChaincodeReg) (compiled : AllCompiled regs) where
    event-Delivered :
        (o : Option ChaincodeEvent) (s : Channels)
        → AllOpen s
        → Returns
            (Delivered (λ c. elim o [ none ↦ [] | some e ↦ cc_messages p c e n regs ]) s)
            (elim o [ none ↦ done s | some e ↦ publish_cc_events p e n regs s ])
    event-Delivered none s a = nothing-Delivered s a
    event-Delivered (some e) s a = ccs-Delivered e n regs s compiled a

    actions-Delivered :
        (actions : List FilteredChaincodeAction) (s : Channels)
        → AllOpen s
        → Returns
            (Delivered (λ c. action_messages p c actions n regs) s)
            (publish_actions p actions n regs s)
    unfolding publish_actions
    actions-Delivered [] s a = nothing-Delivered s a
    actions-Delivered (action ∷ actions) s a =
        then-Delivered p always
          (λ c. elim action.chaincode_event [ none ↦ [] | some e ↦ cc_messages p c e n regs ])
          (λ c. action_messages p c actions n regs) s _ _
          (event-Delivered action.chaincode_event s a) (actions-Delivered actions)

    tx_cc-Delivered :
        (tx : FilteredTransaction) (s : Channels)
        → AllOpen s
        → Returns
            (Delivered (λ c. tx_cc_messages p c tx n regs) s)
            (publish_tx_cc_events p tx n regs s)
    unfolding publish_tx_cc_events
    tx_cc-Delivered tx s a = decide (tx.tx_validation_code == p.valid) tx.transaction_actions
      where
        decide :
            (b : Bool) (o : Option (List FilteredChaincodeAction))
            → Returns
                (Delivered
                  (λ c.
                    if b
                    then (elim o [ none ↦ [] | some actions ↦ action_messages p c actions n regs ])
                    else [])
                  s)
                (if b
                  then (elim o [
                    | none ↦ done s
                    | some actions ↦ publish_actions p actions n regs s
                  ])
                  else done s)
        decide false o = nothing-Delivered s a
        decide true none = nothing-Delivered s a
        decide true (some actions) = actions-Delivered actions s a

  txs-Delivered :
      (txs : List FilteredTransaction) (n : ℕ) (tx_regs : List (Text × TxStatusReg))
      (cc_regs : List (Text × ChaincodeReg)) (s : Channels)
      → AllCompiled (values cc_regs)
      → AllOpen s
      → Returns
          (Delivered (λ c. txs_messages p c txs n tx_regs cc_regs) s)
          (publish_transactions p txs n tx_regs cc_regs s)
  unfolding publish_transactions
  txs-Delivered [] n tx_regs cc_regs s k a = nothing-Delivered s a
  txs-Delivered (tx ∷ txs) n tx_regs cc_regs s k a =
      then-Delivered p always (λ c. tx_messages p c tx n tx_regs)
        (λ c. tx_cc_messages p c tx n (values cc_regs) ++ txs_messages p c txs n tx_regs cc_regs) s
        _ _ (tx-Delivered tx n tx_regs s a)
        (λ t b.
          then-Delivered p always (λ c. tx_cc_messages p c tx n (values cc_regs))
            (λ c. txs_messages p c txs n tx_regs cc_regs) t _ _
            (tx_cc-Delivered n (values cc_regs) k tx t b)
            (λ u. txs-Delivered txs n tx_regs cc_regs u k))

  -- If all channels are open, the consumers always make room and the filters of the chaincode
  -- registrations are compiled, publishing a filtered block returns and closes nothing. It adds to
  -- each channel one message for each registration for filtered blocks with that channel, and then
  -- for each transaction, in order: the status to the registration for it, and, of a valid one, its
  -- chaincode events, each to the registrations that are for it.
  pub publish_filtered_block_events-Delivered :
      (fblock : FilteredBlock) (fb_regs : List FilteredBlockReg)
      (tx_regs : List (Text × TxStatusReg)) (cc_regs : List (Text × ChaincodeReg)) (s : Channels)
      → AllCompiled (values cc_regs)
      → AllOpen s
      → Returns
          (Delivered
            (λ c.
              fblock_messages p c fblock fb_regs
              ++ txs_messages p c fblock.filtered_transactions fblock.number tx_regs cc_regs)
            s)
          (publish_filtered_block_events p (some fblock) fb_regs tx_regs cc_regs s)
  unfolding publish_filtered_block_events
  publish_filtered_block_events-Delivered fblock fb_regs tx_regs cc_regs s k a =
      then-Delivered p always (λ c. fblock_messages p c fblock fb_regs)
        (λ c. txs_messages p c fblock.filtered_transactions fblock.number tx_regs cc_regs) s _ _
        (fblocks-Delivered fblock fb_regs s a)
        (λ t. txs-Delivered fblock.filtered_transactions fblock.number tx_regs cc_regs t k)
