-- ===== src/Service/Live/Sending.antt =====
-- Publishing to open channels.
use mathlib.Core.List.{Mem, mem-cons_self, mem-cons_of_mem, mem-map_of_mem}
use fabric_sdk_go_gm.Common.{
  ℕ, zero, suc, refl, ◌∙◌, ◌≢◌, Bool, true, false, List, [], ◌∷◌, map, Option, none, some, arith,
  ◌==◌, if◌then◌else◌, All,
}
use fabric_sdk_go_gm.Common.Int.{ℤ, pos, negsuc}
use fabric_sdk_go_gm.Common.Text.{Text, text_eq}
use fabric_sdk_go_gm.Common.Map.{lookup, values, lookup-mem}
use fabric_sdk_go_gm.Common.Outcome.{
  Outcome, done, ◌>>=◌, deref, Returns, Returns->>=, Returns-mono, Returns-if, Returns-option,
}
use fabric_sdk_go_gm.Fab.{
  Block, FilteredBlock, FilteredTransaction, FilteredChaincodeAction, ChaincodeEvent, Message,
}
use fabric_sdk_go_gm.Fab.Channels.{Channels, Ready, update, send, refused, take_message, give_up}
use fabric_sdk_go_gm.Service.Registrations.{BlockReg, FilteredBlockReg, ChaincodeReg, TxStatusReg}
use fabric_sdk_go_gm.Service.Publish.{
  Publisher, publish_block_events, check_filtered_block_registrations, publish_tx_status_events,
  matches_cc_event, publish_cc_events, publish_actions, publish_tx_cc_events, publish_transactions,
  publish_filtered_block_events,
}
use fabric_sdk_go_gm.Service.Live.{IsOpen, SameClosed}

-- Every registration of the list has an open channel.
abbrev pub OpenAll : {A : Type 0} → (A → ℕ) → List A → Channels → Type 0
OpenAll ch xs s = (c : ℕ) → Mem c (map ch xs) → IsOpen s c

OpenAll-SameClosed :
    {A : Type 0} (ch : A → ℕ) (xs : List A) (s t : Channels)
    → SameClosed s t
    → OpenAll ch xs s
    → OpenAll ch xs t
OpenAll-SameClosed ch xs s t k o c m = k c ∙ o c m

OpenAll-tail :
    {A : Type 0} (ch : A → ℕ) (x : A) (xs : List A) (s : Channels)
    → OpenAll ch (x ∷ xs) s
    → OpenAll ch xs s
OpenAll-tail ch x xs s o c m = o c (mem-cons_of_mem (ch x) m)

give_up-SameClosed : (c : ℕ) (s : Channels) → SameClosed s (give_up c s)
unfolding update
give_up-SameClosed c s j = ground arith

take_message-SameClosed : (c : ℕ) (m : Message) (s : Channels) → SameClosed s (take_message c m s)
unfolding update
take_message-SameClosed c m s j = ground arith

refused-Returns :
    (t : ℤ) (c : ℕ) (s : Channels) → t ≢ pos 0 → Returns (SameClosed s) (refused t c s)
unfolding refused
refused-Returns (pos zero) c s h = absurd (h refl)
refused-Returns (pos (suc n)) c s h = give_up-SameClosed c s
refused-Returns (negsuc n) c s h = give_up-SameClosed c s

send-Returns :
    (ready : Ready) (t : ℤ) (c : ℕ) (m : Message) (s : Channels)
    → t ≢ pos 0
    → IsOpen s c
    → Returns (SameClosed s) (send ready t c m s)
unfolding send
send-Returns ready t c m s h o =
    Returns-if (SameClosed s) (s c).closed _ _ (λ e. cc)
      λ _.
        Returns-if (SameClosed s) (ready c (s c).tries) _ _ (λ _. take_message-SameClosed c m s)
          (λ _. refused-Returns t c s h)

-- The rule for two steps, the second of which needs what the first leaves open.
then-Returns :
    (s : Channels) (r : Outcome Channels) (f : Channels → Outcome Channels)
    → Returns (SameClosed s) r
    → ((t : Channels) → SameClosed s t → Returns (SameClosed t) (f t))
    → Returns (SameClosed s) (r >>= f)
then-Returns s r f h k =
    Returns->>= (SameClosed s) (SameClosed s) r f h
      λ t g. Returns-mono (SameClosed t) (SameClosed s) (f t) (λ u e c. e c ∙ g c) (k t g)

maybe :
    (b : Bool) (s : Channels) (r : Outcome Channels)
    → Returns (SameClosed s) r
    → Returns (SameClosed s) (if b then r else done s)
maybe true s r h = h
maybe false s r h = λ c. refl

-- The filters of all chaincode registrations are compiled.
abbrev pub IsCompiled : ChaincodeReg → Type 0
IsCompiled r = r.event_reg_exp ≢ none

abbrev pub AllCompiled : List ChaincodeReg → Type 0
AllCompiled = All IsCompiled

matches-Returns :
    (p : Publisher) (e : ChaincodeEvent) (reg : ChaincodeReg)
    → IsCompiled reg
    → Returns (λ _. Unit {0}) (matches_cc_event p e reg)
unfolding matches_cc_event
matches-Returns p e reg q =
    Returns-if (λ _. Unit {0}) (text_eq reg.chaincode_id e.chaincode_id) _ _
      (λ _. compiled reg.event_reg_exp q) (λ _. tt)
  where
    compiled :
        (o : Option (Text → Bool))
        → o ≢ none
        → Returns (λ _. Unit {0}) (deref o >>= λ f. done (f e.event_name))
    compiled none h = absurd (h refl)
    compiled (some f) h = tt

module _ (p : Publisher) (patient : p.timeout ≢ pos 0) where
  pub publish_block_events-Returns :
      (block : Block) (regs : List BlockReg) (s : Channels)
      → OpenAll (λ r. r.eventch) regs s
      → Returns (SameClosed s) (publish_block_events p block regs s)
  unfolding publish_block_events
  publish_block_events-Returns block [] s o = λ c. refl
  publish_block_events-Returns block (reg ∷ regs) s o =
      then-Returns s _ _
        (maybe (reg.filter block) s _
          (send-Returns p.ready p.timeout reg.eventch _ s patient (o reg.eventch mem-cons_self)))
        λ t k. publish_block_events-Returns block regs t (
          OpenAll-SameClosed (λ r. r.eventch) regs s t k
            (OpenAll-tail (λ (r : BlockReg). r.eventch) reg regs s o))

  check_filtered-Returns :
      (fblock : FilteredBlock) (regs : List FilteredBlockReg) (s : Channels)
      → OpenAll (λ r. r.eventch) regs s
      → Returns (SameClosed s) (check_filtered_block_registrations p fblock regs s)
  unfolding check_filtered_block_registrations
  check_filtered-Returns fblock [] s o = λ c. refl
  check_filtered-Returns fblock (reg ∷ regs) s o =
      then-Returns s _ _
        (send-Returns p.ready p.timeout reg.eventch _ s patient (o reg.eventch mem-cons_self))
        λ t k. check_filtered-Returns fblock regs t (
          OpenAll-SameClosed (λ r. r.eventch) regs s t k
            (OpenAll-tail (λ (r : FilteredBlockReg). r.eventch) reg regs s o))

  publish_tx_status-Returns :
      (tx : FilteredTransaction) (n : ℕ) (regs : List (Text × TxStatusReg)) (s : Channels)
      → OpenAll (λ r. r.eventch) (values regs) s
      → Returns (SameClosed s) (publish_tx_status_events p tx n regs s)
  unfolding publish_tx_status_events
  publish_tx_status-Returns tx n regs s o =
      Returns-option (SameClosed s) (lookup tx.txid regs) _ _ (λ _ c. refl)
        λ reg e.
          send-Returns p.ready p.timeout reg.eventch _ s patient
            (o reg.eventch (mem-map_of_mem (λ r. r.eventch) (lookup-mem tx.txid reg regs e)))

  -- A registration whose filter is compiled can be tested.
  publish_cc_events-Returns :
      (e : ChaincodeEvent) (n : ℕ) (regs : List ChaincodeReg) (s : Channels)
      → OpenAll (λ r. r.eventch) regs s
      → AllCompiled regs
      → Returns (SameClosed s) (publish_cc_events p e n regs s)
  unfolding publish_cc_events
  publish_cc_events-Returns e n [] s o q = λ c. refl
  publish_cc_events-Returns e n (reg ∷ regs) s o q =
      Returns->>= (λ _. Unit {0}) (SameClosed s) (matches_cc_event p e reg) _
        (matches-Returns p e reg q.0)
        λ matched _.
          then-Returns s _ _
            (maybe matched s _ (
              send-Returns p.ready p.timeout reg.eventch _ s patient (o reg.eventch mem-cons_self)))
            λ t k.
              publish_cc_events-Returns e n regs t
                (OpenAll-SameClosed (λ r. r.eventch) regs s t k
                  (OpenAll-tail (λ (r : ChaincodeReg). r.eventch) reg regs s o))
                q.1

  publish_actions-Returns :
      (actions : List FilteredChaincodeAction) (n : ℕ) (regs : List ChaincodeReg) (s : Channels)
      → OpenAll (λ r. r.eventch) regs s
      → AllCompiled regs
      → Returns (SameClosed s) (publish_actions p actions n regs s)
  unfolding publish_actions
  publish_actions-Returns [] n regs s o q = λ c. refl
  publish_actions-Returns (action ∷ actions) n regs s o q =
      then-Returns s _ _
        (Returns-option (SameClosed s) action.chaincode_event _ _ (λ _ c. refl)
          (λ e _. publish_cc_events-Returns e n regs s o q))
        λ t k.
          publish_actions-Returns actions n regs t
            (OpenAll-SameClosed (λ r. r.eventch) regs s t k o) q

  publish_tx_cc-Returns :
      (tx : FilteredTransaction) (n : ℕ) (regs : List ChaincodeReg) (s : Channels)
      → OpenAll (λ r. r.eventch) regs s
      → AllCompiled regs
      → Returns (SameClosed s) (publish_tx_cc_events p tx n regs s)
  unfolding publish_tx_cc_events
  publish_tx_cc-Returns tx n regs s o q = maybe (tx.tx_validation_code == p.valid) s _ (
      Returns-option (SameClosed s) tx.transaction_actions _ _ (λ _ c. refl)
        (λ actions _. publish_actions-Returns actions n regs s o q))

  publish_transactions-Returns :
      (txs : List FilteredTransaction) (n : ℕ) (tx_regs : List (Text × TxStatusReg))
      (cc_regs : List (Text × ChaincodeReg)) (s : Channels)
      → OpenAll (λ r. r.eventch) (values tx_regs) s
      → OpenAll (λ r. r.eventch) (values cc_regs) s
      → AllCompiled (values cc_regs)
      → Returns (SameClosed s) (publish_transactions p txs n tx_regs cc_regs s)
  unfolding publish_transactions
  publish_transactions-Returns [] n tx_regs cc_regs s o oc q = λ c. refl
  publish_transactions-Returns (tx ∷ txs) n tx_regs cc_regs s o oc q =
      then-Returns s _ _ (publish_tx_status-Returns tx n tx_regs s o) λ t k.
        let oct = OpenAll-SameClosed (λ (r : ChaincodeReg). r.eventch) (values cc_regs) s t k oc in
        let ot = OpenAll-SameClosed (λ (r : TxStatusReg). r.eventch) (values tx_regs) s t k o in
        then-Returns t _ _ (publish_tx_cc-Returns tx n (values cc_regs) t oct q) λ u l.
          publish_transactions-Returns txs n tx_regs cc_regs u
            (OpenAll-SameClosed (λ r. r.eventch) (values tx_regs) t u l ot)
            (OpenAll-SameClosed (λ r. r.eventch) (values cc_regs) t u l oct) q

  pub publish_filtered_block_events-Returns :
      (fblock : FilteredBlock) (fb_regs : List FilteredBlockReg)
      (tx_regs : List (Text × TxStatusReg)) (cc_regs : List (Text × ChaincodeReg)) (s : Channels)
      → OpenAll (λ r. r.eventch) fb_regs s
      → OpenAll (λ r. r.eventch) (values tx_regs) s
      → OpenAll (λ r. r.eventch) (values cc_regs) s
      → AllCompiled (values cc_regs)
      → Returns
          (SameClosed s)
          (publish_filtered_block_events p (some fblock) fb_regs tx_regs cc_regs s)
  unfolding publish_filtered_block_events
  publish_filtered_block_events-Returns fblock fb_regs tx_regs cc_regs s ob o oc q =
      then-Returns s _ _ (check_filtered-Returns fblock fb_regs s ob) λ t k.
        publish_transactions-Returns fblock.filtered_transactions fblock.number tx_regs cc_regs t
          (OpenAll-SameClosed (λ r. r.eventch) (values tx_regs) s t k o)
          (OpenAll-SameClosed (λ r. r.eventch) (values cc_regs) s t k oc) q
