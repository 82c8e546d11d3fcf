-- ===== src/Service/Dispatcher.antt =====
-- pkg/fab/events/service/dispatcher/dispatcher.go: the dispatcher's state, its registrations and
-- the snapshot. `chans` is the store of the channels that the registrations name.
use fabric_sdk_go_gm.Common.{
  ℕ, ◌-◌, ◌^◌, Bool, true, false, ◌||◌, List, [], ◌∷◌, ◌++◌, map, Option, none, some, ltb, ◌==◌,
  if◌then◌else◌,
}
use fabric_sdk_go_gm.Common.Int.{ℤ}
use fabric_sdk_go_gm.Common.Text.{Text}
use fabric_sdk_go_gm.Common.Map.{lookup, insert, values}
use fabric_sdk_go_gm.Common.Outcome.{Outcome, done, ◌>>=◌}
use fabric_sdk_go_gm.Fab.Channels.{Channels, close_all}
use fabric_sdk_go_gm.Service.Registrations.{
  BlockReg, FilteredBlockReg, ChaincodeReg, TxStatusReg, Snapshot, Error, block_out_of_order,
  cc_registration_exists, tx_registration_exists,
}

pub data State : Type 0 where
  initial started stopped : State

abbrev pub state_eq : State → State → Bool
state_eq initial initial = true
state_eq started started = true
state_eq stopped stopped = true
state_eq _ _ = false

pub record Params : Type 0 where
  pub event_consumer_timeout : ℤ
  pub initial_last_block_num : ℕ
  pub initial_block_registrations : List BlockReg
  pub initial_filtered_block_registrations : List FilteredBlockReg
  pub initial_cc_registrations : List ChaincodeReg
  pub initial_tx_status_registrations : List TxStatusReg

pub record Dispatcher : Type 0 where
  pub last_block_num : ℕ
  pub params : Params
  pub update_last_block_info_only : Bool
  pub state : State
  pub block_registrations : List BlockReg
  pub filtered_block_registrations : List FilteredBlockReg
  pub tx_registrations : List (Text × TxStatusReg)
  pub cc_registrations : List (Text × ChaincodeReg)
  pub chans : Channels

-- math.MaxUint64, which stands for "no block yet".
abbrev pub max_uint64 : ℕ
max_uint64 = 2 ^ 64 - 1

unfoldable pub new : Params → Channels → Dispatcher
new params chans = record {
  last_block_num = max_uint64;
  params = params;
  update_last_block_info_only = false;
  state = initial;
  block_registrations = [];
  filtered_block_registrations = [];
  tx_registrations = [];
  cc_registrations = [];
  chans = chans;
}

-- `setState`: a compare-and-swap, with its success.
unfoldable pub set_state : State → State → Dispatcher → Dispatcher × Bool
set_state expected s ed =
    if state_eq ed.state expected then (record ed { state = s }, true) else (ed, false)

unfoldable pub update_last_block_num : ℕ → Dispatcher → Dispatcher × Option Error
update_last_block_num n ed =
    if ed.last_block_num == max_uint64 || ltb ed.last_block_num n
    then (record ed { last_block_num = n }, none)
    else (ed, some (block_out_of_order ed.last_block_num n))

-- `UpdateLastBlockInfoOnly`: the next block only updates the number of the last block.
unfoldable pub set_update_last_block_info_only : Dispatcher → Dispatcher
set_update_last_block_info_only ed = record ed { update_last_block_info_only = true }

-- `getCCKey`: 47 is the slash.
unfoldable pub get_cc_key : Text → Text → Text
get_cc_key cc_id event_filter = cc_id ++ 47 ∷ event_filter

unfoldable pub register_block_event : BlockReg → Dispatcher → Dispatcher
register_block_event reg ed = record ed { block_registrations = ed.block_registrations ++ reg ∷ [] }

unfoldable pub register_filtered_block_event : FilteredBlockReg → Dispatcher → Dispatcher
register_filtered_block_event reg ed = record ed {
  filtered_block_registrations = ed.filtered_block_registrations ++ reg ∷ [];
}

unfoldable pub register_cc_event : ChaincodeReg → Dispatcher → Dispatcher × Option Error
register_cc_event reg ed =
    let key = get_cc_key reg.chaincode_id reg.event_filter in
    elim (lookup key ed.cc_registrations) [
      | some _ ↦ (ed, some (cc_registration_exists reg.chaincode_id reg.event_filter))
      | none ↦ (record ed { cc_registrations = insert key reg ed.cc_registrations }, none)
    ]

unfoldable pub register_tx_status_event : TxStatusReg → Dispatcher → Dispatcher × Option Error
register_tx_status_event reg ed = elim (lookup reg.tx_id ed.tx_registrations) [
  | some _ ↦ (ed, some (tx_registration_exists reg.tx_id))
  | none ↦ (record ed { tx_registrations = insert reg.tx_id reg ed.tx_registrations }, none)
]

-- The clear functions close the channels on demand, in the order of the registrations.
unfoldable pub clear_block_registrations : Bool → Dispatcher → Outcome Dispatcher
clear_block_registrations false ed = done (record ed { block_registrations = [] })
clear_block_registrations true ed = do
  chans ← close_all (map (λ r. r.eventch) ed.block_registrations) ed.chans
  done (record ed { block_registrations = []; chans = chans })

unfoldable pub clear_filtered_block_registrations : Bool → Dispatcher → Outcome Dispatcher
clear_filtered_block_registrations false ed = done (record ed { filtered_block_registrations = [] })
clear_filtered_block_registrations true ed = do
  chans ← close_all (map (λ r. r.eventch) ed.filtered_block_registrations) ed.chans
  done (record ed { filtered_block_registrations = []; chans = chans })

unfoldable pub clear_tx_registrations : Bool → Dispatcher → Outcome Dispatcher
clear_tx_registrations false ed = done (record ed { tx_registrations = [] })
clear_tx_registrations true ed = do
  chans ← close_all (map (λ r. r.eventch) (values ed.tx_registrations)) ed.chans
  done (record ed { tx_registrations = []; chans = chans })

unfoldable pub clear_chaincode_registrations : Bool → Dispatcher → Outcome Dispatcher
clear_chaincode_registrations false ed = done (record ed { cc_registrations = [] })
clear_chaincode_registrations true ed = do
  chans ← close_all (map (λ r. r.eventch) (values ed.cc_registrations)) ed.chans
  done (record ed { cc_registrations = []; chans = chans })

unfoldable pub clear_registrations : Bool → Dispatcher → Outcome Dispatcher
clear_registrations close_channel ed = do
  ed1 ← clear_block_registrations close_channel ed
  ed2 ← clear_filtered_block_registrations close_channel ed1
  ed3 ← clear_tx_registrations close_channel ed2
  clear_chaincode_registrations close_channel ed3

unfoldable pub new_snapshot : Dispatcher → Snapshot
new_snapshot ed = record {
  last_block_received = ed.last_block_num;
  snap_block_registrations = ed.block_registrations;
  snap_filtered_block_registrations = ed.filtered_block_registrations;
  snap_cc_registrations = values ed.cc_registrations;
  snap_tx_status_registrations = values ed.tx_registrations;
}
