-- ===== src/Fab/Channels.antt =====
-- Go's channels of events, as the code uses them. A channel is a number in a store that keeps, for
-- each, whether it is closed, the messages that it has taken, oldest first, and how often a send
-- was tried. `Ready` says for each try whether the consumer makes room before the send gives up.
use fabric_sdk_go_gm.Common.{
  ℕ, zero, suc, ◌+◌, Bool, true, false, List, [], ◌∷◌, ◌++◌, ◌==◌, if◌then◌else◌,
}
use fabric_sdk_go_gm.Common.Int.{ℤ, pos, negsuc}
use fabric_sdk_go_gm.Common.Outcome.{Outcome, done, panics, blocked, ◌>>=◌, closed_channel}
use fabric_sdk_go_gm.Fab.{Message}

pub record Channel : Type 0 where
  pub closed : Bool
  pub log : List Message
  pub tries : ℕ

abbrev pub Channels : Type 0
Channels = ℕ → Channel

-- The channel, and the number of sends that were tried on it before.
abbrev pub Ready : Type 0
Ready = ℕ → ℕ → Bool

abbrev pub fresh_channel : Channel
fresh_channel = record { closed = false; log = []; tries = 0 }

unfoldable pub update : Channels → ℕ → Channel → Channels
update s c v j = if c == j then v else s j

-- `close(ch)`: closing twice panics.
unfoldable pub close : ℕ → Channels → Outcome Channels
close c s =
    if (s c).closed
    then panics closed_channel
    else done (update s c (record (s c) { closed = true }))

abbrev pub take_message : ℕ → Message → Channels → Channels
take_message c m s =
    update s c (record (s c) { log = (s c).log ++ m ∷ []; tries = (s c).tries + 1 })

abbrev pub give_up : ℕ → Channels → Channels
give_up c s = update s c (record (s c) { tries = (s c).tries + 1 })

-- What follows the consumer's refusal: a timeout of 0 waits for ever, any other drops the message.
unfoldable pub refused : ℤ → ℕ → Channels → Outcome Channels
refused (pos zero) c s = blocked
refused (pos (suc n)) c s = done (give_up c s)
refused (negsuc n) c s = done (give_up c s)

-- The three-way send that the dispatcher's publishing functions repeat.
unfoldable pub send : Ready → ℤ → ℕ → Message → Channels → Outcome Channels
send ready timeout c m s =
    if (s c).closed
    then panics closed_channel
    else if ready c (s c).tries
    then done (take_message c m s)
    else refused timeout c s

unfoldable pub close_all : List ℕ → Channels → Outcome Channels
close_all [] s = done s
close_all (c ∷ cs) s = close c s >>= close_all cs
