-- ===== src/Service/Order/Publishing.antt =====
-- What the publishing functions of dispatcher.go add to the channels.
use mathlib.Core.List.{append-nil}
use fabric_sdk_go_gm.Common.{
  ℕ, ◌≡◌, refl, inl, inr, Bool, true, false, List, [], ◌∷◌, some, arith, Bool-cases, if◌then◌else◌,
  ◌==◌,
}
use fabric_sdk_go_gm.Common.Int.{ℤ}
use fabric_sdk_go_gm.Common.Text.{Text}
use fabric_sdk_go_gm.Common.Map.{lookup, values}
use fabric_sdk_go_gm.Common.Outcome.{
  Outcome, done, IfDone, IfDone->>=, IfDone-if, IfDone-option, IfDone-any,
}
use fabric_sdk_go_gm.Fab.{
  Block, FilteredBlock, FilteredTransaction, FilteredChaincodeAction, ChaincodeEvent, Message,
}
use fabric_sdk_go_gm.Fab.Channels.{Channels, Ready, update, send, take_message}
use fabric_sdk_go_gm.Service.Registrations.{BlockReg, FilteredBlockReg, ChaincodeReg, TxStatusReg}
use fabric_sdk_go_gm.Service.Publish.{
  Publisher, new_block_event, new_filtered_block_event, new_tx_status_event, new_chaincode_event,
  publish_block_events, check_filtered_block_registrations, publish_tx_status_events,
  matches_cc_event, publish_cc_events, publish_actions, publish_tx_cc_events, publish_transactions,
  publish_filtered_block_events,
}
use fabric_sdk_go_gm.Service.Order.{
  header_number, number_of, Gains, Gains-refl, then-Gains, refused-Gains,
}

take_message-Gains :
    (n c : ℕ) (m : Message) (s : Channels) → number_of m ≡ n → Gains n s (take_message c m s)
unfolding update
take_message-Gains n c m s e j = elim (Bool-cases (c == j)) [
  | inl h ↦ (ground arith, (m ∷ [], ground arith, (e, tt)))
  | inr h ↦ (ground arith, ([], rw h (ground (arith, append-nil (s j).log)), tt))
]

send-Gains :
    (n : ℕ) (ready : Ready) (t : ℤ) (c : ℕ) (m : Message) (s : Channels)
    → number_of m ≡ n
    → IfDone (Gains n s) (send ready t c m s)
unfolding send
send-Gains n ready t c m s e =
    IfDone-if (Gains n s) (s c).closed _ _ (λ _. tt)
      (λ _.
        IfDone-if (Gains n s) (ready c (s c).tries) _ _ (λ _. take_message-Gains n c m s e)
          (λ _. refused-Gains n t c s))

if_done :
    (n : ℕ) (b : Bool) (s : Channels) (r : Outcome Channels)
    → IfDone (Gains n s) r
    → IfDone (Gains n s) (if b then r else done s)
if_done n true s r h = h
if_done n false s r h = Gains-refl n s

module _ (p : Publisher) where
  pub publish_block_events-Gains :
      (block : Block) (regs : List BlockReg) (s : Channels)
      → IfDone (Gains (header_number block) s) (publish_block_events p block regs s)
  unfolding publish_block_events new_block_event
  publish_block_events-Gains block [] s = Gains-refl _ s
  publish_block_events-Gains block (reg ∷ regs) s =
      then-Gains (header_number block) s _ _
        (if_done _ (reg.filter block) s _ (send-Gains _ p.ready p.timeout reg.eventch _ s refl))
        (publish_block_events-Gains block regs)

  check_filtered-Gains :
      (fblock : FilteredBlock) (regs : List FilteredBlockReg) (s : Channels)
      → IfDone (Gains fblock.number s) (check_filtered_block_registrations p fblock regs s)
  unfolding check_filtered_block_registrations new_filtered_block_event
  check_filtered-Gains fblock [] s = Gains-refl _ s
  check_filtered-Gains fblock (reg ∷ regs) s =
      then-Gains fblock.number s _ _ (send-Gains _ p.ready p.timeout reg.eventch _ s refl)
        (check_filtered-Gains fblock regs)

  publish_tx_status-Gains :
      (tx : FilteredTransaction) (n : ℕ) (regs : List (Text × TxStatusReg)) (s : Channels)
      → IfDone (Gains n s) (publish_tx_status_events p tx n regs s)
  unfolding publish_tx_status_events new_tx_status_event
  publish_tx_status-Gains tx n regs s =
      IfDone-option (Gains n s) (lookup tx.txid regs) _ _ (Gains-refl n s)
        (λ reg. send-Gains n p.ready p.timeout reg.eventch _ s refl)

  publish_cc_events-Gains :
      (e : ChaincodeEvent) (n : ℕ) (regs : List ChaincodeReg) (s : Channels)
      → IfDone (Gains n s) (publish_cc_events p e n regs s)
  unfolding publish_cc_events new_chaincode_event
  publish_cc_events-Gains e n [] s = Gains-refl n s
  publish_cc_events-Gains e n (reg ∷ regs) s =
      IfDone->>= (λ _. Unit) (Gains n s) (matches_cc_event p e reg) _
        (IfDone-any (matches_cc_event p e reg))
        λ matched _.
          then-Gains n s _ _
            (if_done n matched s _ (send-Gains n p.ready p.timeout reg.eventch _ s refl))
            (publish_cc_events-Gains e n regs)

  publish_actions-Gains :
      (actions : List FilteredChaincodeAction) (n : ℕ) (regs : List ChaincodeReg) (s : Channels)
      → IfDone (Gains n s) (publish_actions p actions n regs s)
  unfolding publish_actions
  publish_actions-Gains [] n regs s = Gains-refl n s
  publish_actions-Gains (action ∷ actions) n regs s =
      then-Gains n s _ _
        (IfDone-option (Gains n s) action.chaincode_event _ _ (Gains-refl n s)
          (λ e. publish_cc_events-Gains e n regs s))
        (publish_actions-Gains actions n regs)

  publish_tx_cc-Gains :
      (tx : FilteredTransaction) (n : ℕ) (regs : List ChaincodeReg) (s : Channels)
      → IfDone (Gains n s) (publish_tx_cc_events p tx n regs s)
  unfolding publish_tx_cc_events
  publish_tx_cc-Gains tx n regs s = if_done n (tx.tx_validation_code == p.valid) s _ (
      IfDone-option (Gains n s) tx.transaction_actions _ _ (Gains-refl n s)
        (λ actions. publish_actions-Gains actions n regs s))

  publish_transactions-Gains :
      (txs : List FilteredTransaction) (n : ℕ) (tx_regs : List (Text × TxStatusReg))
      (cc_regs : List (Text × ChaincodeReg)) (s : Channels)
      → IfDone (Gains n s) (publish_transactions p txs n tx_regs cc_regs s)
  unfolding publish_transactions
  publish_transactions-Gains [] n tx_regs cc_regs s = Gains-refl n s
  publish_transactions-Gains (tx ∷ txs) n tx_regs cc_regs s =
      then-Gains n s _ _ (publish_tx_status-Gains tx n tx_regs s) λ t.
        then-Gains n t _ _ (publish_tx_cc-Gains tx n (values cc_regs) t)
          (publish_transactions-Gains txs n tx_regs cc_regs)

  pub publish_filtered_block_events-Gains :
      (fblock : FilteredBlock) (fb_regs : List FilteredBlockReg)
      (tx_regs : List (Text × TxStatusReg)) (cc_regs : List (Text × ChaincodeReg)) (s : Channels)
      → IfDone
          (Gains fblock.number s)
          (publish_filtered_block_events p (some fblock) fb_regs tx_regs cc_regs s)
  unfolding publish_filtered_block_events
  publish_filtered_block_events-Gains fblock fb_regs tx_regs cc_regs s =
      then-Gains fblock.number s _ _ (check_filtered-Gains fblock fb_regs s)
        (publish_transactions-Gains fblock.filtered_transactions fblock.number tx_regs cc_regs)
