-- ===== src/Service/Tests.antt =====
-- The theorems on the dispatcher of pkg/fab/events/service at concrete inputs.
use mathlib.Core.List.{Nodup-nil, Nodup-cons, not-mem-nil}
use fabric_sdk_go_gm.Common.{
  All, ◌<◌, ℕ, ◌≡◌, refl, ◌≢◌, ap, true, List, [], ◌∷◌, Perm, none, some, arith, get_elem?, ◌==◌,
}
use fabric_sdk_go_gm.Common.Int.{ℤ, pos, negsuc}
use fabric_sdk_go_gm.Common.Text.{Text, text_eq}
use fabric_sdk_go_gm.Common.Outcome.{IfDone, Returns}
use fabric_sdk_go_gm.Fab.{Block}
use fabric_sdk_go_gm.Common.Map.{values}
use fabric_sdk_go_gm.Fab.Channels.{Channels, fresh_channel}
use fabric_sdk_go_gm.Service.Registrations.{
  stop, BlockReg, FilteredBlockReg, Event, register_block, register_filtered_block, block_event,
}
use fabric_sdk_go_gm.Service.Dispatcher.{
  max_uint64, started, Params, Dispatcher, new, new_snapshot, register_block_event, set_state,
}
use fabric_sdk_go_gm.Service.Filter.{Protos, get_filtered_tx}
use fabric_sdk_go_gm.Service.FilterBlock.{to_filtered_block, filter_txs, collect}
use fabric_sdk_go_gm.Service.Unregister.{find_index, remove_index}
use fabric_sdk_go_gm.Service.Handlers.{
  Library, handle, run, handle_stop_event, handle_stop_and_transfer_event,
}
use fabric_sdk_go_gm.Service.Start.{
  start, set_snapshot, ok, init_registrations, init_block_registrations,
  init_filtered_block_registrations, init_cc_registrations, init_tx_status_registrations,
  init_last_block_num,
}
use fabric_sdk_go_gm.Service.Keys.{NoSlash, get_cc_key-injective}
use fabric_sdk_go_gm.Service.Transfer.{
  start-new_snapshot, with_snapshot, HandsOver, handle_stop_and_transfer_event-HandsOver, restored,
}
use fabric_sdk_go_gm.Service.Order.Running.{IsOrdered, run-IsOrdered}
use fabric_sdk_go_gm.Service.Live.Registering.{IsLive}
use fabric_sdk_go_gm.Service.Live.Unregistering.{remove_index_perm}
use fabric_sdk_go_gm.Service.Live.Stopping.{
  Stops, handle_stop_event-Stops, handle_stop_and_transfer_event_lem,
}
use fabric_sdk_go_gm.Service.Live.Handling.{Admissible, Lives}
use fabric_sdk_go_gm.Service.Live.Running.{AlwaysAdmissible, GoesOn, run-GoesOn}
use fabric_sdk_go_gm.Service.Live.Reaching.{Reached, reachable-handle-Lives}

-- A decoder that knows no envelope: the filtered blocks have no transactions.
abbrev protos : Protos
protos = record {
  get_envelope_from_block = λ b. none;
  unmarshal_payload = λ b. none;
  unmarshal_channel_header = λ b. none;
  unmarshal_transaction = λ b. none;
  unmarshal_chaincode_action_payload = λ b. none;
  unmarshal_proposal_response_payload = λ b. none;
  unmarshal_chaincode_action = λ b. none;
  unmarshal_chaincode_events = λ b. none;
  validation_flag = get_elem?;
  endorser_transaction = 3;
  transactions_filter = 2;
}

abbrev pub library : Library
library = record {
  compile = λ t. some (text_eq t);
  protos = protos;
  valid = 0;
  ready = λ c n. true;
}

abbrev pub block_of : ℕ → Block
block_of n = record {
  header = some (record { number = n });
  data_ = some ((1 ∷ []) ∷ []);
  metadata = some ([] ∷ [] ∷ (0 ∷ []) ∷ []);
}

abbrev params : Params
params = record {
  event_consumer_timeout = pos 500;
  initial_last_block_num = 0;
  initial_block_registrations = [];
  initial_filtered_block_registrations = [];
  initial_cc_registrations = [];
  initial_tx_status_registrations = [];
}

abbrev pub chans : Channels
chans c = fresh_channel

abbrev pub reg : ℕ → BlockReg
reg c = record { addr = c; filter = λ b. true; eventch = c }

abbrev fblock_reg : FilteredBlockReg
fblock_reg = record { addr = 9; eventch = 9 }

abbrev pub dispatcher : Dispatcher
dispatcher = record (new params chans) { state = started; block_registrations = reg 4 ∷ [] }

abbrev events : List Event
events =
    register_block (reg 0)
    ∷ register_filtered_block fblock_reg
    ∷ block_event (record { block = block_of 5; source_url = [] })
    ∷ block_event (record { block = block_of 3; source_url = [] })
    ∷ block_event (record { block = block_of 6; source_url = [] })
    ∷ []

abbrev magnitude : ℤ → ℕ
magnitude (pos n) = n
magnitude (negsuc n) = n

dispatcher-IsOrdered : IsOrdered dispatcher
unfolding new
dispatcher-IsOrdered = record { in_order = λ c. tt; none_later = λ c. tt; none_yet = λ e c. refl }

patient : params.event_consumer_timeout ≢ pos 0
patient e = let h : 500 ≡ 0 = ap magnitude e in omega (arith, h)

pub dispatcher-IsLive : IsLive dispatcher
unfolding new values
dispatcher-IsLive = record {
  alive = record { distinct = Nodup-cons.1 (not-mem-nil, Nodup-nil); all_open = λ c m. refl };
  tx_map = tt;
  cc_map = tt;
  compiled = tt;
  patient = patient;
}

run-IsOrdered_example : IfDone (λ r. IsOrdered r.0) (run library events dispatcher)
run-IsOrdered_example =
    run-IsOrdered library events dispatcher
      (omega arith, (omega arith, (omega arith, (omega arith, (omega arith, tt)))))
      dispatcher-IsOrdered

-- A dispatcher is started, a consumer registers, a second dispatcher takes over, and a block comes.
abbrev started_dispatcher : Dispatcher
started_dispatcher = record (new params chans) { state = started }

abbrev second_dispatcher : Dispatcher
second_dispatcher = restored dispatcher params chans

abbrev block_seven : Event
block_seven = block_event (record { block = block_of 7; source_url = [] })

started-Reached : Reached library started_dispatcher
unfolding start new set_state init_registrations init_block_registrations
    init_filtered_block_registrations init_cc_registrations init_tx_status_registrations
    init_last_block_num
started-Reached = Reached.starts params chans patient refl

dispatcher-Reached : Reached library dispatcher
unfolding new handle register_block_event values
dispatcher-Reached =
    Reached.handles (register_block (reg 4)) started-Reached (refl, not-mem-nil) refl

second-Reached : Reached library second_dispatcher
unfolding handle new
second-Reached =
    let (accepted, starts) = start-new_snapshot dispatcher params chans dispatcher-IsLive in
    Reached.takes_over params dispatcher-Reached refl
      (handle_stop_and_transfer_event_lem dispatcher refl) patient accepted starts

block_seven-Admissible : Admissible library block_seven second_dispatcher
unfolding to_filtered_block filter_txs get_filtered_tx collect
block_seven-Admissible = (record { number = 7 }, _, refl, refl)

reachable-handle-Lives_example : Returns Lives (handle library block_seven second_dispatcher)
reachable-handle-Lives_example =
    reachable-handle-Lives library second_dispatcher block_seven second-Reached
      block_seven-Admissible

handle_stop_event-Stops_example : Returns (Stops dispatcher) (handle_stop_event dispatcher)
handle_stop_event-Stops_example = handle_stop_event-Stops dispatcher dispatcher-IsLive refl

handle_stop_and_transfer_event-HandsOver_example :
    Returns (HandsOver dispatcher params) (handle_stop_and_transfer_event dispatcher)
handle_stop_and_transfer_event-HandsOver_example =
    handle_stop_and_transfer_event-HandsOver dispatcher params dispatcher-IsLive

start-new_snapshot_example :
    (set_snapshot (new_snapshot dispatcher) params ≡ ok (with_snapshot dispatcher params))
    × (start (new (with_snapshot dispatcher params) chans)
        ≡ (restored dispatcher params chans, none))
start-new_snapshot_example = start-new_snapshot dispatcher params chans dispatcher-IsLive

abbrev three : List ℕ
three = 1 ∷ 2 ∷ 3 ∷ []

remove_index_perm_example : Perm three (3 ∷ remove_index 2 three)
remove_index_perm_example = remove_index_perm (λ x. x == 3) three 2 3 (unfold find_index in refl)

abbrev mycc : Text
mycc = 109 ∷ 121 ∷ []

abbrev filter : Text
filter = 47 ∷ 46 ∷ []

mycc-NoSlash : NoSlash mycc
mycc-NoSlash = (λ e. omega (arith, e), (λ e. omega (arith, e), tt))

get_cc_key-injective_example : (mycc ≡ mycc) × (filter ≡ filter)
get_cc_key-injective_example =
    get_cc_key-injective mycc mycc filter filter mycc-NoSlash mycc-NoSlash refl

abbrev block_message_of : ℕ → Event
block_message_of n = block_event (record { block = block_of n; source_url = [] })

abbrev later_events : List Event
later_events = block_message_of 5 ∷ block_message_of 3 ∷ block_message_of 6 ∷ stop ∷ []

block_message-AlwaysAdmissible :
    (n : ℕ) → n < max_uint64 → AlwaysAdmissible library (block_message_of n)
unfolding to_filtered_block filter_txs get_filtered_tx collect
block_message-AlwaysAdmissible n h = (h, λ ed. (record { number = n }, _, refl, refl))

later_events-AlwaysAdmissible : All (AlwaysAdmissible library) later_events
later_events-AlwaysAdmissible = (
  block_message-AlwaysAdmissible 5 (omega arith),
  (
    block_message-AlwaysAdmissible 3 (omega arith),
    (block_message-AlwaysAdmissible 6 (omega arith), ((omega arith, λ ed. tt), tt)),
  ),
)

run-GoesOn_example : Returns (λ r. GoesOn r.0) (run library later_events dispatcher)
run-GoesOn_example =
    run-GoesOn library later_events dispatcher later_events-AlwaysAdmissible
      (dispatcher-IsLive, dispatcher-IsOrdered)
