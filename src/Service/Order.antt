-- ===== src/Service/Order.antt =====
-- The order in which a consumer sees the blocks: what a publishing function adds to the channels.
pub mod Publishing
pub mod Closing
pub mod Filtering
pub mod Handling
pub mod Running
use fabric_sdk_go_gm.Common.{
  ℕ, zero, suc, ◌+◌, ◌≤◌, ◌<◌, ◌≡◌, refl, sym, ap, ◌∙◌, ◌⊎◌, inl, inr, Bool, true, false, List, [],
  ◌∷◌, ◌++◌, Option, none, some, arith, All, All-append, Bool-cases, Option-cases,
}
use mathlib.Core.List.{append-nil, append_assoc}
use fabric_sdk_go_gm.Common.Int.{ℤ, pos, negsuc}
use fabric_sdk_go_gm.Common.Text.{Text}
use fabric_sdk_go_gm.Common.Map.{lookup, values}
use fabric_sdk_go_gm.Common.Outcome.{
  Outcome, done, panics, blocked, ◌>>=◌, deref, IfDone, IfDone->>=, IfDone-mono,
}
use fabric_sdk_go_gm.Fab.{
  Block, FilteredBlock, FilteredTransaction, FilteredChaincodeAction, ChaincodeEvent, Message,
  block_message, filtered_block_message, tx_status_message, cc_message,
}
use fabric_sdk_go_gm.Fab.Channels.{Channels, update, send, refused}
use fabric_sdk_go_gm.Service.Registrations.{BlockReg, FilteredBlockReg, ChaincodeReg, TxStatusReg}
use fabric_sdk_go_gm.Service.Publish.{
  Publisher, new_block_event, new_filtered_block_event, new_tx_status_event, new_chaincode_event,
  publish_block_events, check_filtered_block_registrations, publish_tx_status_events,
  matches_cc_event, publish_cc_events, publish_actions, publish_tx_cc_events, publish_transactions,
  publish_filtered_block_events,
}

abbrev pub header_number : Block → ℕ
header_number block = elim block.header [ none ↦ 0 | some h ↦ h.number ]

-- The block that a message is about.
abbrev pub number_of : Message → ℕ
number_of (block_message e) = header_number e.block
number_of (filtered_block_message e) = e.filtered_block.number
number_of (tx_status_message e) = e.block_number
number_of (cc_message e) = e.block_number

abbrev pub About : ℕ → List Message → Type 0
About n = All (λ m. number_of m ≡ n)

-- Every channel stays open or closed as it was, and gains messages about block `n` at the end.
abbrev pub Gains : ℕ → Channels → Channels → Type 0
Gains n s t =
    (c : ℕ)
    → ((t c).closed ≡ (s c).closed)
      × ((ms : List Message) × ((t c).log ≡ (s c).log ++ ms) × About n ms)

pub Gains-refl : (n : ℕ) (s : Channels) → Gains n s s
Gains-refl n s c = (refl, ([], sym (append-nil (s c).log), tt))

pub Gains-trans : (n : ℕ) (s t u : Channels) → Gains n s t → Gains n t u → Gains n s u
Gains-trans n s t u g h c =
    let (ms, e, a) = (g c).1 in
    let (ns, f, b) = (h c).1 in
    (
      (h c).0 ∙ (g c).0,
      (
        ms ++ ns,
        f ∙ ap (λ l. l ++ ns) e ∙ append_assoc (s c).log ms ns,
        All-append (λ m. number_of m ≡ n) ms ns a b,
      ),
    )

-- The rule for two publishing steps in a row.
pub then-Gains :
    (n : ℕ) (s : Channels) (r : Outcome Channels) (f : Channels → Outcome Channels)
    → IfDone (Gains n s) r
    → ((t : Channels) → IfDone (Gains n t) (f t))
    → IfDone (Gains n s) (r >>= f)
then-Gains n s r f h k =
    IfDone->>= (Gains n s) (Gains n s) r f h
      λ t g. IfDone-mono (Gains n t) (Gains n s) (f t) (λ u. Gains-trans n s t u g) (k t)

give_up-Gains :
    (n c : ℕ) (s : Channels) → Gains n s (update s c (record (s c) { tries = (s c).tries + 1 }))
unfolding update
give_up-Gains n c s j =
    (ground arith, ([], ground (arith, append-nil (s c).log, append-nil (s j).log), tt))

refused-Gains : (n : ℕ) (t : ℤ) (c : ℕ) (s : Channels) → IfDone (Gains n s) (refused t c s)
unfolding refused
refused-Gains n (pos zero) c s = tt
refused-Gains n (pos (suc k)) c s = give_up-Gains n c s
refused-Gains n (negsuc k) c s = give_up-Gains n c s
