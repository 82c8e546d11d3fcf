-- ===== src/Service/Live.antt =====
-- The channels of the registrations, which ones are open, and the closing of them.
pub mod Sending
pub mod Registering
pub mod Handling
pub mod Reaching
pub mod Running
pub mod Stopping
pub mod Unregistering
use mathlib.Core.Logic.Or
use mathlib.Core.Bool.{Bool-set}
use mathlib.Core.List.{
  Mem, Nodup, Nodup-cons, mem-cons, mem-cons_self, mem-cons_of_mem, not-mem-nil,
}
use mathlib.Core.List.Perm
use fabric_sdk_go_gm.Common.{
  ℕ, ◌≡◌, refl, ◌∙◌, ◌≢◌, ap, sym, Bool, true, false, List, [], ◌∷◌, ◌++◌, map, Perm, arith, All,
  ◌==◌, Bool-cases,
}
use fabric_sdk_go_gm.Common.Outcome.{
  Outcome, done, ◌>>=◌, Returns, Returns->>=, Returns-mono, Returns-if,
}
use fabric_sdk_go_gm.Fab.Channels.{Channels, update, close, close_all}

abbrev pub IsOpen : Channels → ℕ → Type 0
IsOpen s c = (s c).closed ≡ false

-- The channels of a list are open, and no two are the same.
pub record Alive (cs : List ℕ) (s : Channels) : Type 0 where
  pub distinct : Nodup cs
  pub all_open : (c : ℕ) → Mem c cs → IsOpen s c

pub Alive-perm : {cs ds : List ℕ} {s : Channels} → Perm cs ds → Alive cs s → Alive ds s
Alive-perm p a = record {
  distinct = Perm.nodup p a.distinct;
  all_open = λ c m. a.all_open c ((Perm.mem_iff p).1 m);
}

abbrev pub SameClosed : Channels → Channels → Type 0
SameClosed s t = (c : ℕ) → (t c).closed ≡ (s c).closed

pub Alive-SameClosed : {cs : List ℕ} {s t : Channels} → SameClosed s t → Alive cs s → Alive cs t
Alive-SameClosed k a = record { distinct = a.distinct; all_open = λ c m. k c ∙ a.all_open c m }

pub Alive-tail : {c : ℕ} {cs : List ℕ} {s : Channels} → Alive (c ∷ cs) s → Alive cs s
Alive-tail {c} a = record {
  distinct = (Nodup-cons.0 a.distinct).1;
  all_open = λ d m. a.all_open d (mem-cons_of_mem c m);
}

-- A fresh channel joins.
pub Alive-cons :
    {c : ℕ} {cs : List ℕ} {s : Channels} → IsOpen s c → ¬ Mem c cs → Alive cs s → Alive (c ∷ cs) s
Alive-cons {c} {cs} {s} o fresh a = record {
  distinct = Nodup-cons.1 (fresh, a.distinct);
  all_open = λ d m. Or.elim (Bool-set _ _) (mem-cons.0 m) (λ e. rw e o) (a.all_open d);
}

close_others :
    (c d : ℕ) (s : Channels)
    → c ≢ d
    → (update s c (record (s c) { closed = true }) d).closed ≡ (s d).closed
unfolding update
close_others c d s h = ground arith

close_own : (c : ℕ) (s : Channels) → (update s c (record (s c) { closed = true }) c).closed ≡ true
unfolding update
close_own c s = ground arith

-- An open channel can be closed, and no other channel is.
pub close-Returns :
    (c : ℕ) (s : Channels)
    → IsOpen s c
    → Returns
        (λ t. ((t c).closed ≡ true) × ((d : ℕ) → c ≢ d → (t d).closed ≡ (s d).closed))
        (close c s)
unfolding close
close-Returns c s o =
    Returns-if _ (s c).closed _ _ (λ e. cc) (λ _. (close_own c s, λ d. close_others c d s))

-- Once the first channel is closed the others are still open.
pub Alive-close :
    (c : ℕ) (cs : List ℕ) (s t : Channels)
    → ((d : ℕ) → c ≢ d → (t d).closed ≡ (s d).closed)
    → Alive (c ∷ cs) s
    → Alive cs t
Alive-close c cs s t others a = record {
  distinct = (Nodup-cons.0 a.distinct).1;
  all_open = λ d m.
      others d (λ e. (Nodup-cons.0 a.distinct).0 (rw e m)) ∙ a.all_open d (mem-cons_of_mem c m);
}

-- The channels of the list are closed and no other is.
abbrev pub Closes : List ℕ → Channels → Channels → Type 0
Closes cs s t =
    ((d : ℕ) → Mem d cs → (t d).closed ≡ true)
    × ((d : ℕ) → ¬ Mem d cs → (t d).closed ≡ (s d).closed)

pub close_all-Returns :
    (cs : List ℕ) (s : Channels) → Alive cs s → Returns (Closes cs s) (close_all cs s)
unfolding close_all
close_all-Returns [] s a = (λ d m. absurd (not-mem-nil m), λ d _. refl)
close_all-Returns (c ∷ cs) s a =
    Returns->>= _ (Closes (c ∷ cs) s) (close c s) _ (close-Returns c s (a.all_open c mem-cons_self))
      λ t k.
        Returns-mono (Closes cs t) (Closes (c ∷ cs) s) (close_all cs t)
          (λ u h. (
            λ d m.
                Or.elim (Bool-set _ _) (mem-cons.0 m)
                  (λ e. rw e (h.1 c (Nodup-cons.0 a.distinct).0 ∙ k.0)) (h.0 d),
            λ d m. h.1 d (λ n. m (mem-cons_of_mem c n)) ∙ k.1 d (λ e. m (rw e mem-cons_self)),
          ))
          (close_all-Returns cs t (Alive-close c cs s t k.1 a))
