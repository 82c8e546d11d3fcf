-- ===== src/Service/Start.antt =====
-- dispatcher.go and opts.go: a dispatcher set up from a snapshot, and its start.
use fabric_sdk_go_gm.Common.{List, [], ◌∷◌, Option, none, some, ltb, if◌then◌else◌}
use fabric_sdk_go_gm.Service.Registrations.{
  BlockReg, FilteredBlockReg, ChaincodeReg, TxStatusReg, Registration, block_reg,
  filtered_block_reg, chaincode_reg, tx_status_reg, Snapshot, Error, not_in_initial_state,
  dispatcher_not_started, invalid_block_registration, invalid_filtered_block_registration,
  invalid_chaincode_registration, invalid_tx_status_registration, from_block_reg, from_fblock_reg,
  from_cc_reg, from_tx_reg,
}
use fabric_sdk_go_gm.Service.Dispatcher.{
  initial, started, state_eq, Params, Dispatcher, set_state, update_last_block_num,
  register_block_event, register_filtered_block_event, register_cc_event, register_tx_status_event,
}

pub data Result (A : Type 0) : Type 0 where
  ok : A → Result A
  err : Error → Result A

infixl 5 ◌>>=◌
abbrev pub ◌>>=◌ : {A B : Type 0} → Result A → (A → Result B) → Result B
ok a >>= f = f a
err e >>= f = err e

-- The four conversions stop at the first registration of another type.
unfoldable pub as_block_registrations : List Registration → Result (List BlockReg)
as_block_registrations [] = ok []
as_block_registrations (block_reg r ∷ rs) = as_block_registrations rs >>= λ out. ok (r ∷ out)
as_block_registrations (_ ∷ rs) = err invalid_block_registration

unfoldable pub as_fblock_registrations : List Registration → Result (List FilteredBlockReg)
as_fblock_registrations [] = ok []
as_fblock_registrations (filtered_block_reg r ∷ rs) =
    as_fblock_registrations rs >>= λ out. ok (r ∷ out)
as_fblock_registrations (_ ∷ rs) = err invalid_filtered_block_registration

unfoldable pub as_cc_registrations : List Registration → Result (List ChaincodeReg)
as_cc_registrations [] = ok []
as_cc_registrations (chaincode_reg r ∷ rs) = as_cc_registrations rs >>= λ out. ok (r ∷ out)
as_cc_registrations (_ ∷ rs) = err invalid_chaincode_registration

unfoldable pub as_tx_registrations : List Registration → Result (List TxStatusReg)
as_tx_registrations [] = ok []
as_tx_registrations (tx_status_reg r ∷ rs) = as_tx_registrations rs >>= λ out. ok (r ∷ out)
as_tx_registrations (_ ∷ rs) = err invalid_tx_status_registration

-- `SetSnapshot`: the snapshot is read through its interface.
unfoldable pub set_snapshot : Snapshot → Params → Result Params
set_snapshot s p = do
  b ← as_block_registrations (from_block_reg s.snap_block_registrations)
  fb ← as_fblock_registrations (from_fblock_reg s.snap_filtered_block_registrations)
  cc ← as_cc_registrations (from_cc_reg s.snap_cc_registrations)
  tx ← as_tx_registrations (from_tx_reg s.snap_tx_status_registrations)
  ok (record p {
    initial_last_block_num = s.last_block_received;
    initial_block_registrations = b;
    initial_filtered_block_registrations = fb;
    initial_cc_registrations = cc;
    initial_tx_status_registrations = tx;
  })

-- The loops of `initRegistrations`; the last two stop at the first error.
unfoldable pub init_block_registrations : List BlockReg → Dispatcher → Dispatcher
init_block_registrations [] ed = ed
init_block_registrations (reg ∷ regs) ed =
    init_block_registrations regs (register_block_event reg ed)

unfoldable pub init_filtered_block_registrations : List FilteredBlockReg → Dispatcher → Dispatcher
init_filtered_block_registrations [] ed = ed
init_filtered_block_registrations (reg ∷ regs) ed =
    init_filtered_block_registrations regs (register_filtered_block_event reg ed)

unfoldable pub init_cc_registrations : List ChaincodeReg → Dispatcher → Dispatcher × Option Error
init_cc_registrations [] ed = (ed, none)
init_cc_registrations (reg ∷ regs) ed =
    let (ed1, e) = register_cc_event reg ed in
    elim e [ none ↦ init_cc_registrations regs ed1 | some x ↦ (ed1, some x) ]

unfoldable pub init_tx_status_registrations :
    List TxStatusReg → Dispatcher → Dispatcher × Option Error
init_tx_status_registrations [] ed = (ed, none)
init_tx_status_registrations (reg ∷ regs) ed =
    let (ed1, e) = register_tx_status_event reg ed in
    elim e [ none ↦ init_tx_status_registrations regs ed1 | some x ↦ (ed1, some x) ]

unfoldable pub init_registrations : Dispatcher → Dispatcher × Option Error
init_registrations ed =
    let ed1 = init_block_registrations ed.params.initial_block_registrations ed in
    let ed2 =
      init_filtered_block_registrations ed.params.initial_filtered_block_registrations ed1 in
    let (ed3, e) = init_cc_registrations ed.params.initial_cc_registrations ed2 in
    elim e [
      | none ↦ init_tx_status_registrations ed.params.initial_tx_status_registrations ed3
      | some x ↦ (ed3, some x)
    ]

-- The update's error is only logged.
unfoldable pub init_last_block_num : Dispatcher → Dispatcher
init_last_block_num ed =
    if ltb 0 ed.params.initial_last_block_num
    then (update_last_block_num ed.params.initial_last_block_num ed).0
    else ed

-- `Start`, up to the loop. On an error there is no loop.
unfoldable pub start : Dispatcher → Dispatcher × Option Error
start ed =
    let (ed1, was_initial) = set_state initial started ed in
    let (ed2, e) = init_registrations ed1 in
    if was_initial
    then elim e [ some x ↦ (ed2, some x) | none ↦ (init_last_block_num ed2, none) ]
    else (ed1, some not_in_initial_state)

-- `EventCh`: whether events may be submitted.
unfoldable pub event_ch : Dispatcher → Option Error
event_ch ed = if state_eq ed.state started then none else some dispatcher_not_started
