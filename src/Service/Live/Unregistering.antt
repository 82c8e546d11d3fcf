-- ===== src/Service/Live/Unregistering.antt =====
-- The removal of a registration from a live dispatcher.
use mathlib.Core.List.{mem-cons_self}
use mathlib.Core.List.Perm
use fabric_sdk_go_gm.Common.{
  ℕ, zero, suc, ◌≡◌, subst, inl, inr, Bool, List, [], ◌∷◌, map, Perm, Option, some, arith,
  Bool-cases, get_elem?, set, ◌==◌,
}
use fabric_sdk_go_gm.Common.Text.{Text, text_eq}
use fabric_sdk_go_gm.Common.Map.{lookup, delete, values, IsMap-delete, values-delete}
use fabric_sdk_go_gm.Common.Outcome.{done, ◌>>=◌, Returns, Returns->>=, Returns-option}
use fabric_sdk_go_gm.Fab.Channels.{Channels, close}
use fabric_sdk_go_gm.Service.Registrations.{
  BlockReg, FilteredBlockReg, ChaincodeReg, TxStatusReg, Registration, block_reg,
  filtered_block_reg, chaincode_reg, tx_status_reg, other_reg, Error,
}
use fabric_sdk_go_gm.Service.Dispatcher.{Dispatcher, get_cc_key}
use fabric_sdk_go_gm.Service.Unregister.{
  find_index, remove_index, unregister_block_events, unregister_filtered_block_events,
  unregister_cc_events, unregister_tx_events, unregister_registration,
}
use fabric_sdk_go_gm.Service.Live.{Alive, Alive-perm, Alive-close, close-Returns}
use fabric_sdk_go_gm.Service.Live.Sending.{AllCompiled}
use fabric_sdk_go_gm.Service.Live.Registering.{
  eventchs, IsLive, tx_key, cc_key, join_perm, inner_perm,
}

module _ {A : Type 0} where
  set_perm :
      (xs : List A) (i : ℕ) (a b : A) → get_elem? xs i ≡ some a → Perm (b ∷ xs) (a ∷ set xs i b)
  set_perm [] i a b e = cc
  set_perm (x ∷ xs) zero a b e = subst (λ y. Perm (b ∷ x ∷ xs) (y ∷ b ∷ xs)) (cc) (Perm.swap x b xs)
  set_perm (x ∷ xs) (suc i) a b e =
      Perm.trans (Perm.swap x b xs)
        (Perm.trans (Perm.cons x (set_perm xs i a b e)) (Perm.swap a x (set xs i b)))

  find_index-get :
      (p : A → Bool) (xs : List A) (i : ℕ) (a : A)
      → find_index p xs ≡ some (i, a)
      → get_elem? xs i ≡ some a
  unfolding find_index
  find_index-get p [] i a e = cc
  find_index-get p (x ∷ xs) zero a e = ground arith
  find_index-get p (x ∷ xs) (suc i) a e = ground (arith, find_index-get p xs i a)

  -- If the search finds an element at an index, the two assignments leave the list without that
  -- element, up to order.
  pub remove_index_perm :
      (p : A → Bool) (xs : List A) (i : ℕ) (a : A)
      → find_index p xs ≡ some (i, a)
      → Perm xs (a ∷ remove_index i xs)
  unfolding remove_index
  remove_index_perm p [] i a e = unfold find_index in cc
  remove_index_perm p (x ∷ xs) zero a e =
      subst (λ y. Perm (x ∷ xs) (y ∷ xs)) (ground (arith, find_index-get p (x ∷ xs) 0 a))
        (Perm.refl (x ∷ xs))
  remove_index_perm p (x ∷ xs) (suc i) a e =
      set_perm xs i a x (find_index-get p (x ∷ xs) (suc i) a e)

AllCompiled-delete :
    (k : Text) (m : List (Text × ChaincodeReg))
    → AllCompiled (values m)
    → AllCompiled (values (delete k m))
unfolding values delete
AllCompiled-delete k [] q = tt
AllCompiled-delete k ((j, r) ∷ m) q = elim (Bool-cases (text_eq j k)) [
  | inl e ↦ rw e (AllCompiled-delete k m q.1)
  | inr e ↦ rw e (q.0, AllCompiled-delete k m q.1)
]

-- The channel `c` of a registration that stands among the others can be closed.
removed :
    (cs : List ℕ) (ed : Dispatcher) (c : ℕ) (f : Channels → Dispatcher × Option Error)
    → Perm (eventchs ed) (c ∷ cs)
    → IsLive ed
    → ((s : Channels) → Alive cs s → IsLive (f s).0)
    → Returns (λ r. IsLive r.0) (close c ed.chans >>= λ s. done (f s))
removed cs ed c f p v k =
    let a = Alive-perm p v.alive in
    Returns->>= _ (λ r. IsLive r.0) (close c ed.chans) _
      (close-Returns c ed.chans (a.all_open c mem-cons_self))
      (λ t h. k t (Alive-close c cs ed.chans t h.1 a))

unregister_block-IsLive :
    (r : BlockReg) (ed : Dispatcher)
    → IsLive ed
    → Returns (λ x. IsLive x.0) (unregister_block_events r ed)
unfolding unregister_block_events
unregister_block-IsLive r ed v =
    Returns-option (λ (x : Dispatcher × Option Error). IsLive x.0)
      (find_index (λ reg. reg.addr == r.addr) ed.block_registrations) _ _ (λ _. v)
      λ found e.
        removed _ ed (found.1.eventch) _
          (join_perm [] _ _ _ (found.1.eventch) (
            Perm.map (λ (x : BlockReg). x.eventch)
              (remove_index_perm (λ reg. reg.addr == r.addr) ed.block_registrations (found.0)
                (found.1) e)))
          v
          (λ s a. record {
            alive = a;
            tx_map = v.tx_map;
            cc_map = v.cc_map;
            compiled = v.compiled;
            patient = v.patient;
          })

unregister_filtered_block-IsLive :
    (r : FilteredBlockReg) (ed : Dispatcher)
    → IsLive ed
    → Returns (λ x. IsLive x.0) (unregister_filtered_block_events r ed)
unfolding unregister_filtered_block_events
unregister_filtered_block-IsLive r ed v =
    Returns-option (λ (x : Dispatcher × Option Error). IsLive x.0)
      (find_index (λ reg. reg.addr == r.addr) ed.filtered_block_registrations) _ _ (λ _. v)
      λ found e.
        removed _ ed (found.1.eventch) _
          (join_perm (map (λ x. x.eventch) ed.block_registrations) _ _ _ (found.1.eventch) (
            Perm.map (λ (x : FilteredBlockReg). x.eventch)
              (remove_index_perm (λ reg. reg.addr == r.addr) ed.filtered_block_registrations
                (found.0) (found.1) e)))
          v
          (λ s a. record {
            alive = a;
            tx_map = v.tx_map;
            cc_map = v.cc_map;
            compiled = v.compiled;
            patient = v.patient;
          })

unregister_cc-IsLive :
    (r : ChaincodeReg) (ed : Dispatcher)
    → IsLive ed
    → Returns (λ x. IsLive x.0) (unregister_cc_events r ed)
unfolding unregister_cc_events
unregister_cc-IsLive r ed v =
    let key = get_cc_key r.chaincode_id r.event_filter in
    Returns-option (λ (x : Dispatcher × Option Error). IsLive x.0) (lookup key ed.cc_registrations)
      _ _ (λ _. v)
      λ reg e.
        removed _ ed reg.eventch _
          (inner_perm (map (λ x. x.eventch) ed.block_registrations)
            (map (λ x. x.eventch) ed.filtered_block_registrations) _ _ reg.eventch
            (inner_perm [] (map (λ x. x.eventch) (values ed.tx_registrations)) _ _ reg.eventch (
              Perm.map (λ (x : ChaincodeReg). x.eventch)
                (values-delete cc_key key reg ed.cc_registrations v.cc_map e))))
          v
          (λ s a. record {
            alive = a;
            tx_map = v.tx_map;
            cc_map = IsMap-delete cc_key key ed.cc_registrations v.cc_map;
            compiled = AllCompiled-delete key ed.cc_registrations v.compiled;
            patient = v.patient;
          })

unregister_tx-IsLive :
    (r : TxStatusReg) (ed : Dispatcher)
    → IsLive ed
    → Returns (λ x. IsLive x.0) (unregister_tx_events r ed)
unfolding unregister_tx_events
unregister_tx-IsLive r ed v =
    Returns-option (λ (x : Dispatcher × Option Error). IsLive x.0)
      (lookup r.tx_id ed.tx_registrations) _ _ (λ _. v)
      λ reg e.
        removed _ ed reg.eventch _
          (inner_perm (map (λ x. x.eventch) ed.block_registrations)
            (map (λ x. x.eventch) ed.filtered_block_registrations) _ _ reg.eventch
            (Perm.append_right (map (λ x. x.eventch) (values ed.cc_registrations)) (
              Perm.map (λ (x : TxStatusReg). x.eventch)
                (values-delete tx_key r.tx_id reg ed.tx_registrations v.tx_map e))))
          v
          (λ s a. record {
            alive = a;
            tx_map = IsMap-delete tx_key r.tx_id ed.tx_registrations v.tx_map;
            cc_map = v.cc_map;
            compiled = v.compiled;
            patient = v.patient;
          })

pub unregister_registration-IsLive :
    (reg : Registration) (ed : Dispatcher)
    → IsLive ed
    → Returns (λ x. IsLive x.0) (unregister_registration reg ed)
unfolding unregister_registration
unregister_registration-IsLive (block_reg r) ed v = unregister_block-IsLive r ed v
unregister_registration-IsLive (filtered_block_reg r) ed v = unregister_filtered_block-IsLive r ed v
unregister_registration-IsLive (chaincode_reg r) ed v = unregister_cc-IsLive r ed v
unregister_registration-IsLive (tx_status_reg r) ed v = unregister_tx-IsLive r ed v
unregister_registration-IsLive other_reg ed v = v
