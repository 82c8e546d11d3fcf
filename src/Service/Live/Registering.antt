-- ===== src/Service/Live/Registering.antt =====
-- The invariant of a live dispatcher, and the handlers that register.
use mathlib.Core.List.{Mem, perm_append_singleton, perm_middle}
use mathlib.Core.List.Perm
use fabric_sdk_go_gm.Common.{
  ℕ, ◌≡◌, inl, inr, ◌≢◌, List, [], ◌∷◌, ◌++◌, map, Perm, none, All-append, Option-cases,
}
use fabric_sdk_go_gm.Common.Int.{pos}
use fabric_sdk_go_gm.Common.Text.{Text}
use fabric_sdk_go_gm.Common.Map.{lookup, insert, values, IsMap, IsMap-insert, values-insert}
use fabric_sdk_go_gm.Fab.Channels.{Channels}
use fabric_sdk_go_gm.Service.Registrations.{BlockReg, FilteredBlockReg, ChaincodeReg, TxStatusReg}
use fabric_sdk_go_gm.Service.Dispatcher.{
  Dispatcher, get_cc_key, register_block_event, register_filtered_block_event, register_cc_event,
  register_tx_status_event,
}
use fabric_sdk_go_gm.Service.Live.{IsOpen, Alive, Alive-perm, Alive-cons}
use fabric_sdk_go_gm.Service.Live.Sending.{IsCompiled, AllCompiled}

-- The channels of all registrations, in the order in which `clearRegistrations` closes them.
abbrev pub eventchs : Dispatcher → List ℕ
eventchs ed =
    map (λ r. r.eventch) ed.block_registrations
    ++ (map (λ r. r.eventch) ed.filtered_block_registrations
        ++ (map (λ r. r.eventch) (values ed.tx_registrations)
            ++ map (λ r. r.eventch) (values ed.cc_registrations)))

-- The keys under which the registrations are kept.
abbrev pub tx_key : TxStatusReg → Text
tx_key r = r.tx_id

abbrev pub cc_key : ChaincodeReg → Text
cc_key r = get_cc_key r.chaincode_id r.event_filter

-- Every registration has a channel of its own, which is open; every chaincode registration has a
-- compiled filter; the maps are keyed by their registrations; and the dispatcher does not wait for its consumers for ever.
pub record IsLive (ed : Dispatcher) : Type 0 where
  pub alive : Alive (eventchs ed) ed.chans
  pub tx_map : IsMap tx_key ed.tx_registrations
  pub cc_map : IsMap cc_key ed.cc_registrations
  pub compiled : AllCompiled (values ed.cc_registrations)
  pub patient : ed.params.event_consumer_timeout ≢ pos 0

pub join_perm :
    (xs bs cs ds : List ℕ) (c : ℕ)
    → Perm bs (c ∷ cs)
    → Perm (xs ++ (bs ++ ds)) (c ∷ (xs ++ (cs ++ ds)))
join_perm xs bs cs ds c p =
    Perm.trans (Perm.append_left xs (Perm.append_right ds p)) (perm_middle xs (cs ++ ds))

map_snoc_perm :
    {A : Type 0} (ch : A → ℕ) (xs : List A) (x : A)
    → Perm (map ch (xs ++ x ∷ [])) (ch x ∷ map ch xs)
map_snoc_perm ch xs x = Perm.map ch (perm_append_singleton x xs)

-- A channel that may be given to a new registration.
abbrev pub IsFresh : ℕ → Dispatcher → Type 0
IsFresh c ed = IsOpen ed.chans c × (¬ Mem c (eventchs ed))

joined :
    {c : ℕ} {cs ds : List ℕ} {s : Channels}
    → Perm ds (c ∷ cs)
    → IsOpen s c
    → ¬ Mem c cs
    → Alive cs s
    → Alive ds s
joined p o fresh a = Alive-perm (Perm.symm p) (Alive-cons o fresh a)

pub register_block-IsLive :
    (reg : BlockReg) (ed : Dispatcher)
    → IsFresh reg.eventch ed
    → IsLive ed
    → IsLive (register_block_event reg ed)
unfolding register_block_event
register_block-IsLive reg ed f v = record {
  alive =
      joined
        (join_perm [] _ _ _ reg.eventch (map_snoc_perm (λ r. r.eventch) ed.block_registrations reg))
        (f.0) (f.1) v.alive;
  tx_map = v.tx_map;
  cc_map = v.cc_map;
  compiled = v.compiled;
  patient = v.patient;
}

pub register_filtered_block-IsLive :
    (reg : FilteredBlockReg) (ed : Dispatcher)
    → IsFresh reg.eventch ed
    → IsLive ed
    → IsLive (register_filtered_block_event reg ed)
unfolding register_filtered_block_event
register_filtered_block-IsLive reg ed f v = record {
  alive =
      joined
        (join_perm (map (λ r. r.eventch) ed.block_registrations) _ _ _ reg.eventch
          (map_snoc_perm (λ r. r.eventch) ed.filtered_block_registrations reg))
        (f.0) (f.1) v.alive;
  tx_map = v.tx_map;
  cc_map = v.cc_map;
  compiled = v.compiled;
  patient = v.patient;
}

-- The last two lists stand inside the first two.
pub inner_perm :
    (xs bs : List ℕ) (cs ds : List ℕ) (c : ℕ)
    → Perm cs (c ∷ ds)
    → Perm (xs ++ (bs ++ cs)) (c ∷ (xs ++ (bs ++ ds)))
inner_perm xs bs cs ds c p =
    Perm.trans (Perm.append_left xs (Perm.trans (Perm.append_left bs p) (perm_middle bs ds)))
      (perm_middle xs (bs ++ ds))

tx_snoc_perm :
    {A : Type 0} (ch : A → ℕ) (k : Text) (reg : A) (m : List (Text × A))
    → lookup k m ≡ none
    → Perm (map ch (values (insert k reg m))) (ch reg ∷ map ch (values m))
tx_snoc_perm ch k reg m e = rw (values-insert k reg m e) (map_snoc_perm ch (values m) reg)

pub register_tx_status-IsLive :
    (reg : TxStatusReg) (ed : Dispatcher)
    → IsFresh reg.eventch ed
    → IsLive ed
    → IsLive (register_tx_status_event reg ed).0
unfolding register_tx_status_event
register_tx_status-IsLive reg ed f v = elim (Option-cases (lookup reg.tx_id ed.tx_registrations)) [
  | inr (old, e) ↦ rw (e, register_tx_status_event) v
  | inl e ↦
      rw (e, register_tx_status_event)
        (record {
          alive =
              joined
                (inner_perm (map (λ r. r.eventch) ed.block_registrations)
                  (map (λ r. r.eventch) ed.filtered_block_registrations) _ _ reg.eventch
                  (Perm.append_right (map (λ r. r.eventch) (values ed.cc_registrations))
                    (tx_snoc_perm (λ r. r.eventch) reg.tx_id reg ed.tx_registrations e)))
                (f.0) (f.1) v.alive;
          tx_map = IsMap-insert tx_key reg ed.tx_registrations v.tx_map;
          cc_map = v.cc_map;
          compiled = v.compiled;
          patient = v.patient;
        })
]

pub register_cc-IsLive :
    (reg : ChaincodeReg) (ed : Dispatcher)
    → IsFresh reg.eventch ed
    → IsCompiled reg
    → IsLive ed
    → IsLive (register_cc_event reg ed).0
unfolding register_cc_event
register_cc-IsLive reg ed f q v =
    let key = get_cc_key reg.chaincode_id reg.event_filter in
    elim (Option-cases (lookup key ed.cc_registrations)) [
      | inr (old, e) ↦ rw (e, register_cc_event) v
      | inl e ↦
          rw (e, register_cc_event)
            (record {
              alive =
                  joined
                    (inner_perm (map (λ r. r.eventch) ed.block_registrations)
                      (map (λ r. r.eventch) ed.filtered_block_registrations) _ _ reg.eventch
                      (inner_perm [] (map (λ r. r.eventch) (values ed.tx_registrations)) _ _
                        reg.eventch (tx_snoc_perm (λ r. r.eventch) key reg ed.cc_registrations e)))
                    (f.0) (f.1) v.alive;
              tx_map = v.tx_map;
              cc_map = IsMap-insert cc_key reg ed.cc_registrations v.cc_map;
              compiled = rw (values-insert key reg ed.cc_registrations e) (
                  All-append IsCompiled (values ed.cc_registrations) (reg ∷ []) v.compiled (q, tt));
              patient = v.patient;
            })
    ]
