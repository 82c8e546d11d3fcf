-- ===== src/Service/Order/Closing.antt =====
-- The messages on the channels when registrations are cleared.
use fabric_sdk_go_gm.Common.{
  ℕ, ◌<◌, ◌≡◌, refl, ◌∙◌, ◌⊎◌, Bool, true, false, List, [], ◌∷◌, ◌++◌, arith,
}
use fabric_sdk_go_gm.Common.Outcome.{
  Outcome, done, ◌>>=◌, IfDone, IfDone->>=, IfDone-mono, IfDone-if,
}
use fabric_sdk_go_gm.Fab.{Message}
use fabric_sdk_go_gm.Fab.Channels.{Channels, update, close, close_all}
use fabric_sdk_go_gm.Service.Dispatcher.{
  Dispatcher, max_uint64, clear_registrations, clear_block_registrations,
  clear_filtered_block_registrations, clear_tx_registrations, clear_chaincode_registrations,
}
use fabric_sdk_go_gm.Service.Order.{About}

abbrev pub SameLogs : Channels → Channels → Type 0
SameLogs s t = (c : ℕ) → (t c).log ≡ (s c).log

pub close-SameLogs : (c : ℕ) (s : Channels) → IfDone (SameLogs s) (close c s)
unfolding close update
close-SameLogs c s = IfDone-if (SameLogs s) (s c).closed _ _ (λ _. tt) (λ _ j. ground arith)

pub close_all-SameLogs : (cs : List ℕ) (s : Channels) → IfDone (SameLogs s) (close_all cs s)
unfolding close_all
close_all-SameLogs [] s = λ c. refl
close_all-SameLogs (c ∷ cs) s =
    IfDone->>= (SameLogs s) (SameLogs s) (close c s) _ (close-SameLogs c s) λ t h.
      IfDone-mono (SameLogs t) (SameLogs s) (close_all cs t) (λ u k j. k j ∙ h j)
        (close_all-SameLogs cs t)

-- What an event does to the last block and to the channels: nothing but opening and closing, or
-- it moves on to a later block `n` and the channels gain messages about that block only.
abbrev pub Keeps : Dispatcher → Dispatcher → Type 0
Keeps ed ed' = (ed'.last_block_num ≡ ed.last_block_num) × SameLogs ed.chans ed'.chans

abbrev pub Advances : ℕ → Dispatcher → Dispatcher → Type 0
Advances n ed ed' =
    (ed'.last_block_num ≡ n)
    × ((ed.last_block_num ≡ max_uint64) ⊎ (ed.last_block_num < n))
    × ((c : ℕ) → (ms : List Message) × ((ed'.chans c).log ≡ (ed.chans c).log ++ ms) × About n ms)

abbrev pub Follows : ℕ → Dispatcher → Dispatcher → Type 0
Follows n ed ed' = Keeps ed ed' ⊎ Advances n ed ed'

closing-Keeps :
    (ed : Dispatcher) (cs : List ℕ) (f : Channels → Dispatcher)
    → ((s : Channels) → SameLogs ed.chans s → Keeps ed (f s))
    → IfDone (Keeps ed) (close_all cs ed.chans >>= λ s. done (f s))
closing-Keeps ed cs f k =
    IfDone->>= (SameLogs ed.chans) (Keeps ed) (close_all cs ed.chans) _
      (close_all-SameLogs cs ed.chans) k

clear_block-Keeps :
    (b : Bool) (ed : Dispatcher) → IfDone (Keeps ed) (clear_block_registrations b ed)
unfolding clear_block_registrations
clear_block-Keeps false ed = (refl, λ c. refl)
clear_block-Keeps true ed = closing-Keeps ed _ _ (λ s h. (refl, h))

clear_filtered-Keeps :
    (b : Bool) (ed : Dispatcher) → IfDone (Keeps ed) (clear_filtered_block_registrations b ed)
unfolding clear_filtered_block_registrations
clear_filtered-Keeps false ed = (refl, λ c. refl)
clear_filtered-Keeps true ed = closing-Keeps ed _ _ (λ s h. (refl, h))

clear_tx-Keeps : (b : Bool) (ed : Dispatcher) → IfDone (Keeps ed) (clear_tx_registrations b ed)
unfolding clear_tx_registrations
clear_tx-Keeps false ed = (refl, λ c. refl)
clear_tx-Keeps true ed = closing-Keeps ed _ _ (λ s h. (refl, h))

clear_cc-Keeps :
    (b : Bool) (ed : Dispatcher) → IfDone (Keeps ed) (clear_chaincode_registrations b ed)
unfolding clear_chaincode_registrations
clear_cc-Keeps false ed = (refl, λ c. refl)
clear_cc-Keeps true ed = closing-Keeps ed _ _ (λ s h. (refl, h))

then-Keeps :
    (ed : Dispatcher) (r : Outcome Dispatcher) (f : Dispatcher → Outcome Dispatcher)
    → IfDone (Keeps ed) r
    → ((ed' : Dispatcher) → IfDone (Keeps ed') (f ed'))
    → IfDone (Keeps ed) (r >>= f)
then-Keeps ed r f h k =
    IfDone->>= (Keeps ed) (Keeps ed) r f h
      λ t g. IfDone-mono (Keeps t) (Keeps ed) (f t) (λ u e. (e.0 ∙ g.0, λ c. e.1 c ∙ g.1 c)) (k t)

pub clear_registrations-Keeps :
    (b : Bool) (ed : Dispatcher) → IfDone (Keeps ed) (clear_registrations b ed)
unfolding clear_registrations
clear_registrations-Keeps b ed = then-Keeps ed _ _ (clear_block-Keeps b ed) λ ed1.
    then-Keeps ed1 _ _ (clear_filtered-Keeps b ed1)
      λ ed2. then-Keeps ed2 _ _ (clear_tx-Keeps b ed2) (clear_cc-Keeps b)
