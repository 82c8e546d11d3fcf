-- ===== src/EventClient/PeerResolver/Selecting.antt =====
-- preferorg.go and preferpeer.go: the peers that a loop selects by a test.
use fabric_sdk_go_gm.Common.{
  zero, suc, ◌≡◌, ◌≢◌, refl, ap, subst, Bool, true, false, ◌||◌, List, [], ◌∷◌, All, All-mono,
  Bool-cases, ◌⊎◌, inl, inr, if◌then◌else◌,
}
use fabric_sdk_go_gm.Common.Text.{Text, text_eq}
use fabric_sdk_go_gm.Selection.{Peer}
use fabric_sdk_go_gm.Selection.Heights.{IsAmong}
use fabric_sdk_go_gm.EventClient.PeerResolver.{choose_if_any, org_peers, any_of_org}

abbrev pub select : (Peer → Bool) → List Peer → List Peer
select test [] = []
select test (p ∷ ps) = let rest = select test ps in if test p then p ∷ rest else rest

abbrev pub any_peer : (Peer → Bool) → List Peer → Bool
any_peer test [] = false
any_peer test (p ∷ ps) = test p || any_peer test ps

-- Either no peer passes the test, or some are selected.
pub record NoneSelected (test : Peer → Bool) (ps : List Peer) : Type 0 where
  pub nothing : select test ps ≡ []
  pub refused : All (λ p. test p ≡ false) ps
  pub none_passes : any_peer test ps ≡ false

pub record SomeSelected (test : Peer → Bool) (ps : List Peer) : Type 0 where
  pub something : select test ps ≢ []
  pub passed : All (λ p. (test p ≡ true) × IsAmong ps p) (select test ps)
  pub one_passes : any_peer test ps ≡ true

later :
    (test : Peer → Bool) (p : Peer) (ps qs : List Peer)
    → All (λ q. (test q ≡ true) × IsAmong ps q) qs
    → All (λ q. (test q ≡ true) × IsAmong (p ∷ ps) q) qs
later test p ps qs a =
    All-mono (λ q. (test q ≡ true) × IsAmong ps q) (λ q. (test q ≡ true) × IsAmong (p ∷ ps) q) qs
      (λ q (t, (k, e)). (t, (suc k, e))) a

pub selected : (test : Peer → Bool) (ps : List Peer) → NoneSelected test ps ⊎ SomeSelected test ps
selected test [] = inl (record { nothing = refl; refused = tt; none_passes = refl })
selected test (p ∷ ps) = elim (Bool-cases (test p)) [
  | inl e ↦ elim (selected test ps) [
    | inl s ↦ inr (record {
      something = rw e (λ f. cc);
      passed = rw (e, s.nothing) ((e, (0, refl)), tt);
      one_passes = rw e refl;
    })
    | inr s ↦ inr (record {
      something = rw e (λ f. cc);
      passed = rw e ((e, (0, refl)), later test p ps (select test ps) s.passed);
      one_passes = rw e refl;
    })
  ]
  | inr e ↦ elim (selected test ps) [
    | inl s ↦ inl (record {
      nothing = rw e s.nothing;
      refused = (e, s.refused);
      none_passes = rw e s.none_passes;
    })
    | inr s ↦ inr (record {
      something = rw e s.something;
      passed = rw e (later test p ps (select test ps) s.passed);
      one_passes = rw e s.one_passes;
    })
  ]
]

pub org_peers-select :
    (m : Text) (ps : List Peer) → org_peers m ps ≡ select (λ p. text_eq p.msp_id m) ps
unfolding org_peers
org_peers-select m [] = refl
org_peers-select m (p ∷ ps) = rw (org_peers-select m ps) refl

pub any_of_org-any :
    (m : Text) (ps : List Peer) → any_of_org m ps ≡ any_peer (λ p. text_eq p.msp_id m) ps
unfolding any_of_org
any_of_org-any m [] = refl
any_of_org-any m (p ∷ ps) = ap (text_eq p.msp_id m ||◌) (any_of_org-any m ps)

pub All-at : (P : Peer → Type 0) (ps : List Peer) (q : Peer) → All P ps → IsAmong ps q → P q
All-at P [] q a (k, e) = cc
All-at P (p ∷ ps) q a (zero, e) = let same : p ≡ q = cc in subst P same a.0
All-at P (p ∷ ps) q a (suc k, e) = All-at P ps q a.1 (k, e)

pub All-zip : (P Q : Peer → Type 0) (ps : List Peer) → All P ps → All Q ps → All (λ p. P p × Q p) ps
All-zip P Q [] a b = tt
All-zip P Q (p ∷ ps) a b = ((a.0, b.0), All-zip P Q ps a.1 b.1)

pub choose_if_any-some :
    {X : Type 0} (choose : List Peer → X) (ps : List Peer) (other : X)
    → ps ≢ []
    → choose_if_any choose ps other ≡ choose ps
choose_if_any-some choose [] other n = absurd (n refl)
choose_if_any-some choose (p ∷ ps) other n = refl
