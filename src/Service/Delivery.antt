-- ===== src/Service/Delivery.antt =====
-- dispatcher.go: the messages that a block brings to the consumers that make room for it.
pub mod Filtered
pub mod Tests
use mathlib.Core.List.{append-nil, append_assoc}
use fabric_sdk_go_gm.Common.{
  ℕ, ◌+◌, ◌≡◌, refl, sym, ap, ◌∙◌, Bool, true, false, ◌&&◌, List, [], ◌∷◌, ◌++◌, arith, ◌==◌,
  if◌then◌else◌, Bool-cases, inl, inr,
}
use fabric_sdk_go_gm.Common.Text.{Text}
use fabric_sdk_go_gm.Common.Outcome.{
  Outcome, done, ◌>>=◌, Returns, Returns->>=, Returns-mono, Returns-if,
}
use fabric_sdk_go_gm.Fab.{Block, Message, block_message}
use fabric_sdk_go_gm.Fab.Channels.{Channel, Channels, Ready, update, send, take_message}
use fabric_sdk_go_gm.Service.Registrations.{BlockReg}
use fabric_sdk_go_gm.Service.Publish.{Publisher, publish_block_events, new_block_event}

-- Every channel is open.
abbrev pub AllOpen : Channels → Type 0
AllOpen s = (c : ℕ) → (s c).closed ≡ false

-- The consumers always make room.
abbrev pub AlwaysReady : Ready → Type 0
AlwaysReady ready = (c n : ℕ) → ready c n ≡ true

-- What a message on one channel adds to another.
abbrev pub on : ℕ → ℕ → Message → List Message
on d c m = if d == c then m ∷ [] else []

-- The messages that a block brings to the channel `c`: one for each registration with that channel
-- whose filter passes the block.
abbrev pub block_messages : Block → Text → ℕ → List BlockReg → List Message
block_messages block url c [] = []
block_messages block url c (reg ∷ regs) =
    (if reg.filter block then on reg.eventch c (block_message (new_block_event block url)) else [])
    ++ block_messages block url c regs

-- The channels stay open and gain the messages that `f` gives.
abbrev pub Delivered : (ℕ → List Message) → Channels → Channels → Type 0
Delivered f s t = AllOpen t × ((c : ℕ) → (t c).log ≡ (s c).log ++ f c)

taken :
    (d : ℕ) (m : Message) (s : Channels)
    → AllOpen s
    → Delivered (λ c. on d c m) s (take_message d m s)
unfolding update
taken d m s a =
    ((λ c. let x = a d in let y = a c in ground arith), λ c. ground (arith, append-nil (s c).log))

module _ (p : Publisher) (always : AlwaysReady p.ready) where
  pub send-Delivered :
      (d : ℕ) (m : Message) (s : Channels)
      → AllOpen s
      → Returns (Delivered (λ c. on d c m) s) (send p.ready p.timeout d m s)
  unfolding send
  send-Delivered d m s a =
      Returns-if (Delivered (λ c. on d c m) s) (s d).closed _ _
        (λ x. let y = a d in let z : ⊥ = cc in absurd z)
        λ _.
          Returns-if (Delivered (λ c. on d c m) s) (p.ready d (s d).tries) _ _ (λ _. taken d m s a)
            (λ x. let y = always d (s d).tries in let z : ⊥ = cc in absurd z)

  pub send_if-Delivered :
      (b : Bool) (d : ℕ) (m : Message) (s : Channels)
      → AllOpen s
      → Returns
          (Delivered (λ c. if b then on d c m else []) s)
          (if b then send p.ready p.timeout d m s else done s)
  send_if-Delivered true d m s a = send-Delivered d m s a
  send_if-Delivered false d m s a = (a, λ c. sym (append-nil (s c).log))

  Delivered-trans :
      (f g : ℕ → List Message) (s t u : Channels)
      → Delivered f s t
      → Delivered g t u
      → Delivered (λ c. f c ++ g c) s u
  Delivered-trans f g s t u h k =
      (k.0, λ c. k.1 c ∙ ap (λ l. l ++ g c) (h.1 c) ∙ append_assoc (s c).log (f c) (g c))

  -- The rule for two publishing steps in a row.
  pub then-Delivered :
      (f g : ℕ → List Message) (s : Channels) (m : Outcome Channels)
      (n : Channels → Outcome Channels)
      → Returns (Delivered f s) m
      → ((t : Channels) → AllOpen t → Returns (Delivered g t) (n t))
      → Returns (Delivered (λ c. f c ++ g c) s) (m >>= n)
  then-Delivered f g s m n h k =
      Returns->>= (Delivered f s) (Delivered (λ c. f c ++ g c) s) m n h λ t d.
        Returns-mono (Delivered g t) (Delivered (λ c. f c ++ g c) s) (n t)
          (λ u e. Delivered-trans f g s t u d e) (k t d.0)

  -- If all channels are open and the consumers always make room, publishing a block returns, closes
  -- nothing, and adds to each channel one message for each registration with that channel whose
  -- filter passes the block, in the order of the registrations.
  pub publish_block_events-Delivered :
      (block : Block) (regs : List BlockReg) (s : Channels)
      → AllOpen s
      → Returns
          (Delivered (λ c. block_messages block p.source_url c regs) s)
          (publish_block_events p block regs s)
  unfolding publish_block_events
  publish_block_events-Delivered block [] s a = (a, λ c. sym (append-nil (s c).log))
  publish_block_events-Delivered block (reg ∷ regs) s a =
      let m = block_message (new_block_event block p.source_url) in
      let f : ℕ → List Message = λ c. if reg.filter block then on reg.eventch c m else [] in
      let g : ℕ → List Message = λ c. block_messages block p.source_url c regs in
      then-Delivered f g s _ _ (send_if-Delivered (reg.filter block) reg.eventch m s a)
        (publish_block_events-Delivered block regs)
