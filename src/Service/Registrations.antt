-- ===== src/Service/Registrations.antt =====
-- pkg/fab/events/service/dispatcher/registrations.go and the request types of events.go. A
-- registration is used through a pointer: `addr` is its address, and two registrations are the
-- same if their addresses are. A channel is named by its number in the store of Fab/Channels.antt.
use fabric_sdk_go_gm.Common.{ℕ, Bool, List, [], ◌∷◌, map, Option}
use fabric_sdk_go_gm.Common.Text.{Text}
use fabric_sdk_go_gm.Common.Outcome.{Outcome, ◌>>=◌}
use fabric_sdk_go_gm.Fab.{Block, BlockEvent, FilteredBlock}
use fabric_sdk_go_gm.Fab.Channels.{Channels, close_all}

pub record BlockReg : Type 0 where
  pub addr : ℕ
  pub filter : Block → Bool
  pub eventch : ℕ

pub record FilteredBlockReg : Type 0 where
  pub addr : ℕ
  pub eventch : ℕ

-- `event_reg_exp` is nil until the filter has been compiled.
pub record ChaincodeReg : Type 0 where
  pub addr : ℕ
  pub chaincode_id : Text
  pub event_filter : Text
  pub event_reg_exp : Option (Text → Bool)
  pub eventch : ℕ

pub record TxStatusReg : Type 0 where
  pub addr : ℕ
  pub tx_id : Text
  pub eventch : ℕ

-- fab.Registration, an interface: `other_reg` is a value of any type but the four.
pub data Registration : Type 0 where
  block_reg : BlockReg → Registration
  filtered_block_reg : FilteredBlockReg → Registration
  chaincode_reg : ChaincodeReg → Registration
  tx_status_reg : TxStatusReg → Registration
  other_reg : Registration

pub record Snapshot : Type 0 where
  pub last_block_received : ℕ
  pub snap_block_registrations : List BlockReg
  pub snap_filtered_block_registrations : List FilteredBlockReg
  pub snap_cc_registrations : List ChaincodeReg
  pub snap_tx_status_registrations : List TxStatusReg

unfoldable pub from_block_reg : List BlockReg → List Registration
from_block_reg [] = []
from_block_reg (reg ∷ regs) = block_reg reg ∷ from_block_reg regs

unfoldable pub from_fblock_reg : List FilteredBlockReg → List Registration
from_fblock_reg [] = []
from_fblock_reg (reg ∷ regs) = filtered_block_reg reg ∷ from_fblock_reg regs

unfoldable pub from_cc_reg : List ChaincodeReg → List Registration
from_cc_reg [] = []
from_cc_reg (reg ∷ regs) = chaincode_reg reg ∷ from_cc_reg regs

unfoldable pub from_tx_reg : List TxStatusReg → List Registration
from_tx_reg [] = []
from_tx_reg (reg ∷ regs) = tx_status_reg reg ∷ from_tx_reg regs

-- `snapshot.Close`: the four loops, one after the other.
unfoldable pub close_snapshot : Snapshot → Channels → Outcome Channels
close_snapshot s chans = do
  c1 ← close_all (map (λ r. r.eventch) s.snap_block_registrations) chans
  c2 ← close_all (map (λ r. r.eventch) s.snap_filtered_block_registrations) c1
  c3 ← close_all (map (λ r. r.eventch) s.snap_cc_registrations) c2
  close_all (map (λ r. r.eventch) s.snap_tx_status_registrations) c3

pub record RegistrationInfo : Type 0 where
  pub total_registrations : ℕ
  pub num_block_registrations : ℕ
  pub num_filtered_block_registrations : ℕ
  pub num_cc_registrations : ℕ
  pub num_tx_status_registrations : ℕ

-- The events that the dispatcher takes. A request's response channels are not named: what a handler
-- puts on them is the handler's reply.
pub data Event : Type 0 where
  register_block : BlockReg → Event
  register_filtered_block : FilteredBlockReg → Event
  register_chaincode : ChaincodeReg → Event
  register_tx_status : TxStatusReg → Event
  unregister : Registration → Event
  stop : Event
  transfer : Event
  stop_and_transfer : Event
  registration_info : Event
  block_event : BlockEvent → Event
  filtered_block_event : Option FilteredBlock → Text → Event

pub data Error : Type 0 where
  dispatcher_not_started : Error
  not_in_initial_state : Error
  block_out_of_order : ℕ → ℕ → Error
  cc_registration_exists : Text → Text → Error
  tx_registration_exists : Text → Error
  bad_event_filter : Text → Error
  dispatcher_already_stopped : Error
  invalid_registration : Error
  unsupported_registration : Error
  invalid_block_registration : Error
  invalid_filtered_block_registration : Error
  invalid_chaincode_registration : Error
  invalid_tx_status_registration : Error

-- What a handler puts on the response channels of its event.
pub data Reply : Type 0 where
  no_reply : Reply
  registered : Registration → Reply
  failed : Error → Reply
  stopped : Reply
  snapshot_taken : Snapshot → Reply
  info : RegistrationInfo → Reply
