-- ===== src/Service/Unregister.antt =====
-- dispatcher.go: the removal of a registration, and the closing of its channel.
use fabric_sdk_go_gm.Common.{
  ℕ, suc, Bool, List, [], ◌∷◌, Option, none, some, set, drop, ◌==◌, if◌then◌else◌,
}
use fabric_sdk_go_gm.Common.Map.{lookup, delete}
use fabric_sdk_go_gm.Common.Outcome.{Outcome, done, ◌>>=◌}
use fabric_sdk_go_gm.Fab.Channels.{close}
use fabric_sdk_go_gm.Service.Registrations.{
  BlockReg, FilteredBlockReg, ChaincodeReg, TxStatusReg, Registration, block_reg,
  filtered_block_reg, chaincode_reg, tx_status_reg, other_reg, Error, invalid_registration,
  unsupported_registration,
}
use fabric_sdk_go_gm.Service.Dispatcher.{Dispatcher, get_cc_key}

-- The loop's search: the first element that passes the test, and its index.
unfoldable pub find_index : {A : Type 0} → (A → Bool) → List A → Option (ℕ × A)
find_index p [] = none
find_index p (x ∷ xs) =
    if p x
    then some (0, x)
    else elim (find_index p xs) [ none ↦ none | some (i, a) ↦ some (suc i, a) ]

-- `regs[i] = regs[0]; regs = regs[1:]`.
unfoldable pub remove_index : {A : Type 0} → ℕ → List A → List A
remove_index i [] = []
remove_index i (x ∷ xs) = drop 1 (set (x ∷ xs) i x)

unfoldable pub unregister_block_events : BlockReg → Dispatcher → Outcome (Dispatcher × Option Error)
unregister_block_events r ed =
    elim (find_index (λ reg. reg.addr == r.addr) ed.block_registrations) [
      | none ↦ done (ed, some invalid_registration)
      | some (i, reg) ↦ close reg.eventch ed.chans >>= (λ chans. done (
        record ed { block_registrations = remove_index i ed.block_registrations; chans = chans },
        none,
      ))
    ]

unfoldable pub unregister_filtered_block_events :
    FilteredBlockReg → Dispatcher → Outcome (Dispatcher × Option Error)
unregister_filtered_block_events r ed =
    elim (find_index (λ reg. reg.addr == r.addr) ed.filtered_block_registrations) [
      | none ↦ done (ed, some invalid_registration)
      | some (i, reg) ↦ close reg.eventch ed.chans >>= (λ chans. done (
        record ed {
          filtered_block_registrations = remove_index i ed.filtered_block_registrations;
          chans = chans;
        },
        none,
      ))
    ]

unfoldable pub unregister_cc_events :
    ChaincodeReg → Dispatcher → Outcome (Dispatcher × Option Error)
unregister_cc_events r ed =
    let key = get_cc_key r.chaincode_id r.event_filter in
    elim (lookup key ed.cc_registrations) [
      | none ↦ done (ed, some invalid_registration)
      | some reg ↦ close reg.eventch ed.chans >>= (λ chans.
          done
            (record ed { cc_registrations = delete key ed.cc_registrations; chans = chans }, none))
    ]

unfoldable pub unregister_tx_events : TxStatusReg → Dispatcher → Outcome (Dispatcher × Option Error)
unregister_tx_events r ed = elim (lookup r.tx_id ed.tx_registrations) [
  | none ↦ done (ed, some invalid_registration)
  | some reg ↦ close reg.eventch ed.chans >>= (λ chans.
      done
        (record ed { tx_registrations = delete r.tx_id ed.tx_registrations; chans = chans }, none))
]

-- The type switch of `handleUnregisterEvent`. The error is only logged.
unfoldable pub unregister_registration :
    Registration → Dispatcher → Outcome (Dispatcher × Option Error)
unregister_registration (block_reg r) ed = unregister_block_events r ed
unregister_registration (filtered_block_reg r) ed = unregister_filtered_block_events r ed
unregister_registration (chaincode_reg r) ed = unregister_cc_events r ed
unregister_registration (tx_status_reg r) ed = unregister_tx_events r ed
unregister_registration other_reg ed = done (ed, some unsupported_registration)
