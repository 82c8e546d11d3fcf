-- ===== src/Service/Order/Running.antt =====
-- The order of the messages on the channels, for a run of the dispatcher's loop.
use fabric_sdk_go_gm.Common.{
  ℕ, ◌≤◌, ◌<◌, ◌≡◌, sym, ◌∙◌, inl, inr, List, [], ◌∷◌, ◌++◌, arith, All, All-append,
}
use fabric_sdk_go_gm.Common.Outcome.{IfDone, IfDone->>=, IfDone-mono, IfDone-if}
use fabric_sdk_go_gm.Fab.{Message}
use fabric_sdk_go_gm.Service.Registrations.{Event, Reply}
use fabric_sdk_go_gm.Service.Dispatcher.{Dispatcher, stopped, state_eq, max_uint64}
use fabric_sdk_go_gm.Service.Handlers.{Library, handle, run}
use fabric_sdk_go_gm.Service.Order.{number_of, About}
use fabric_sdk_go_gm.Service.Order.Closing.{Keeps, Advances}
use fabric_sdk_go_gm.Service.Order.Handling.{Leads, event_number, handle-Follows}

-- From `lo` on, the messages are in the order of their blocks.
abbrev pub InOrder : ℕ → List Message → Type 0
InOrder lo [] = Unit
InOrder lo (m ∷ ms) = (lo ≤ number_of m) × InOrder (number_of m) ms

About-InOrder : (lo n : ℕ) (ms : List Message) → lo ≤ n → About n ms → InOrder lo ms
About-InOrder lo n [] h a = tt
About-InOrder lo n (m ∷ ms) h a = (omega arith, About-InOrder (number_of m) n ms (omega arith) a.1)

InOrder-append :
    (lo n : ℕ) (ms ns : List Message)
    → lo ≤ n
    → InOrder lo ms
    → All (λ m. number_of m ≤ n) ms
    → About n ns
    → InOrder lo (ms ++ ns)
InOrder-append lo n [] ns h o b a = About-InOrder lo n ns h a
InOrder-append lo n (m ∷ ms) ns h o b a = (o.0, InOrder-append (number_of m) n ms ns b.0 o.1 b.1 a)

All-le_mono :
    (a b : ℕ) (ms : List Message)
    → a ≤ b
    → All (λ m. number_of m ≤ a) ms
    → All (λ m. number_of m ≤ b) ms
All-le_mono a b [] h k = tt
All-le_mono a b (m ∷ ms) h k = (omega arith, All-le_mono a b ms h k.1)

About-le : (n : ℕ) (ms : List Message) → About n ms → All (λ m. number_of m ≤ n) ms
About-le n [] a = tt
About-le n (m ∷ ms) a = (omega arith, About-le n ms a.1)

-- What the last block number says of a channel: no message before the first block, and none about
-- a later block.
pub record IsOrdered (ed : Dispatcher) : Type 0 where
  pub in_order : (c : ℕ) → InOrder 0 (ed.chans c).log
  pub none_later : (c : ℕ) → All (λ m. number_of m ≤ ed.last_block_num) (ed.chans c).log
  pub none_yet : ed.last_block_num ≡ max_uint64 → (c : ℕ) → (ed.chans c).log ≡ []

Keeps-IsOrdered : (ed ed' : Dispatcher) → Keeps ed ed' → IsOrdered ed → IsOrdered ed'
Keeps-IsOrdered ed ed' k o = record {
  in_order = λ c. rw (k.1 c) (o.in_order c);
  none_later = λ c. rw (k.0, k.1 c) (o.none_later c);
  none_yet = λ e c. k.1 c ∙ o.none_yet (sym (k.0) ∙ e) c;
}

Advances-IsOrdered :
    (n : ℕ) (ed ed' : Dispatcher)
    → n < max_uint64
    → Advances n ed ed'
    → IsOrdered ed
    → IsOrdered ed'
Advances-IsOrdered n ed ed' real (e, later, gains) o = record {
  in_order = λ c.
      let (ms, l, a) = gains c in
      rw l (InOrder-append 0 n (ed.chans c).log ms (omega arith) (o.in_order c) (earlier c) a);
  none_later = λ c.
      let (ms, l, a) = gains c in
      rw (l, e)
        (All-append (λ m. number_of m ≤ n) (ed.chans c).log ms (earlier c) (About-le n ms a));
  none_yet = λ f c. absurd (omega arith);
}
  where
    earlier : (c : ℕ) → All (λ m. number_of m ≤ n) (ed.chans c).log
    earlier c = elim later [
      | inl first ↦ rw (o.none_yet first c) tt
      | inr lt ↦ All-le_mono ed.last_block_num n (ed.chans c).log (omega arith) (o.none_later c)
    ]

-- Handling one event keeps the order.
pub handle-IsOrdered :
    (lib : Library) (e : Event) (ed : Dispatcher)
    → event_number e < max_uint64
    → IsOrdered ed
    → IfDone (λ r. IsOrdered r.0) (handle lib e ed)
handle-IsOrdered lib e ed real o =
    IfDone-mono (Leads (event_number e) ed) (λ r. IsOrdered r.0) (handle lib e ed)
      (λ r f. elim f [
        | inl k ↦ Keeps-IsOrdered ed (r.0) k o
        | inr a ↦ Advances-IsOrdered (event_number e) ed (r.0) real a o
      ])
      (handle-Follows lib e ed)

-- If the messages on the channels are in order, and the loop of the dispatcher is given any events,
-- with the numbers of their blocks below MaxUint64, and comes to rest, the messages on each channel
-- are in the order of their blocks, and none is about a block later than the last one.
pub run-IsOrdered :
    (lib : Library) (es : List Event) (ed : Dispatcher)
    → All (λ e. event_number e < max_uint64) es
    → IsOrdered ed
    → IfDone (λ r. IsOrdered r.0) (run lib es ed)
unfolding run
run-IsOrdered lib [] ed real o = o
run-IsOrdered lib (e ∷ es) ed real o =
    IfDone-if (λ (r : Dispatcher × List Reply). IsOrdered r.0) (state_eq ed.state stopped) _ _
      (λ _. o)
      λ _.
        IfDone->>= (λ (r : Dispatcher × Reply). IsOrdered r.0) (λ r. IsOrdered r.0)
          (handle lib e ed) _ (handle-IsOrdered lib e ed real.0 o)
          λ r o1.
            IfDone->>= (λ (r : Dispatcher × List Reply). IsOrdered r.0) (λ r. IsOrdered r.0)
              (run lib es r.0) _ (run-IsOrdered lib es r.0 real.1 o1) (λ q o2. o2)
