-- ===== src/Service/Live/Stopping.antt =====
-- Stopping the dispatcher and transferring its registrations.
use mathlib.Core.List.{Nodup-nil, not-mem-nil}
use mathlib.Core.Path.{fun_ext}
use fabric_sdk_go_gm.Common.{ℕ, ◌≡◌, refl, sym, ◌∙◌, ap, ◌≢◌, true, List, [], ◌∷◌, ◌++◌, arith}
use fabric_sdk_go_gm.Common.Map.{values}
use fabric_sdk_go_gm.Common.Outcome.{Outcome, done, panics, blocked, ◌>>=◌, Returns, Returns->>=}
use fabric_sdk_go_gm.Fab.Channels.{Channels, close, close_all}
use fabric_sdk_go_gm.Service.Registrations.{
  Reply, failed, dispatcher_already_stopped, stopped as stopped_reply, snapshot_taken,
}
use fabric_sdk_go_gm.Service.Dispatcher.{
  Dispatcher, started, stopped, clear_registrations, clear_block_registrations,
  clear_filtered_block_registrations, clear_tx_registrations, clear_chaincode_registrations,
  set_state, new_snapshot,
}
use fabric_sdk_go_gm.Service.Handlers.{
  handle_stop_event, handle_transfer_event, handle_stop_and_transfer_event,
}
use fabric_sdk_go_gm.Service.Live.{Closes, close_all-Returns}
use fabric_sdk_go_gm.Service.Live.Registering.{eventchs, IsLive}

-- The dispatcher without its registrations.
abbrev pub cleared : Dispatcher → Channels → Dispatcher
cleared ed s = record ed {
  block_registrations = [];
  filtered_block_registrations = [];
  tx_registrations = [];
  cc_registrations = [];
  chans = s;
}

pub >>=-assoc :
    {A B C : Type 0} (m : Outcome A) (f : A → Outcome B) (g : B → Outcome C)
    → ((m >>= f) >>= g) ≡ (m >>= λ a. f a >>= g)
>>=-assoc (done a) f g = refl
>>=-assoc (panics p) f g = refl
>>=-assoc blocked f g = refl

close_all-append :
    (cs ds : List ℕ) (s : Channels) → close_all (cs ++ ds) s ≡ (close_all cs s >>= close_all ds)
unfolding close_all
close_all-append [] ds s = refl
close_all-append (c ∷ cs) ds s =
    ap (λ (k : Channels → Outcome Channels). close c s >>= k) (fun_ext (close_all-append cs ds))
    ∙ sym (>>=-assoc (close c s) (close_all cs) (close_all ds))

-- The four functions that clear with `closeChannel` close the channels of all registrations.
pub clear_registrations-close_all :
    (ed : Dispatcher)
    → clear_registrations true ed ≡ (close_all (eventchs ed) ed.chans >>= λ s. done (cleared ed s))
unfolding clear_registrations clear_block_registrations clear_filtered_block_registrations
    clear_tx_registrations clear_chaincode_registrations
clear_registrations-close_all ed = simp (>>=-assoc, close_all-append)

pub cleared-IsLive : (ed : Dispatcher) (s : Channels) → IsLive ed → IsLive (cleared ed s)
unfolding values
cleared-IsLive ed s v = record {
  alive = record { distinct = Nodup-nil; all_open = λ c m. absurd (not-mem-nil m) };
  tx_map = tt;
  cc_map = tt;
  compiled = tt;
  patient = v.patient;
}

pub set_state_started :
    (ed : Dispatcher)
    → ed.state ≡ started
    → set_state started stopped ed ≡ (record ed { state = stopped }, true)
unfolding set_state
set_state_started ed e = ground arith

-- What a stop leaves: a stopped dispatcher with no registration, and the channels closed.
pub record Stops (ed : Dispatcher) (r : Dispatcher × Reply) : Type 0 where
  pub state_after : r.0.state ≡ stopped
  pub replied : r.1 ≡ stopped_reply
  pub none_left : eventchs r.0 ≡ []
  pub closes : Closes (eventchs ed) ed.chans r.0.chans

-- The stop of a live and started dispatcher returns: it is stopped, all registrations are gone, the
-- channels of the registrations are closed, and no other channel is.
pub handle_stop_event-Stops :
    (ed : Dispatcher) → IsLive ed → ed.state ≡ started → Returns (Stops ed) (handle_stop_event ed)
unfolding handle_stop_event values
handle_stop_event-Stops ed v e =
    rw
      (
        set_state_started ed e,
        clear_registrations-close_all (record ed { state = stopped }),
        >>=-assoc,
      )
      (Returns->>= (Closes (eventchs ed) ed.chans) (Stops ed) (close_all (eventchs ed) ed.chans) _
        (close_all-Returns (eventchs ed) ed.chans v.alive)
        λ s c. record { state_after = refl; replied = refl; none_left = refl; closes = c })

-- A transfer hands over all registrations and the last block, and closes no channel.
pub handle_transfer_event_lem :
    (ed : Dispatcher)
    → handle_transfer_event ed ≡ done (cleared ed ed.chans, snapshot_taken (new_snapshot ed))
unfolding handle_transfer_event clear_registrations clear_block_registrations
    clear_filtered_block_registrations clear_tx_registrations clear_chaincode_registrations
handle_transfer_event_lem ed = refl

pub handle_stop_and_transfer_event_lem :
    (ed : Dispatcher)
    → ed.state ≡ started
    → handle_stop_and_transfer_event ed
      ≡ done (cleared (record ed { state = stopped }) ed.chans, snapshot_taken (new_snapshot ed))
unfolding handle_stop_and_transfer_event clear_registrations clear_block_registrations
    clear_filtered_block_registrations clear_tx_registrations clear_chaincode_registrations
    new_snapshot
handle_stop_and_transfer_event_lem ed e = rw (set_state_started ed e)

pub stop_and_transfer_refused :
    (ed : Dispatcher)
    → ed.state ≢ started
    → handle_stop_and_transfer_event ed ≡ done (ed, failed dispatcher_already_stopped)
unfolding handle_stop_and_transfer_event set_state
stop_and_transfer_refused ed h = ground arith
