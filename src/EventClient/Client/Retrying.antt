-- ===== src/EventClient/Client/Retrying.antt =====
-- client.go: how `connectWithRetry` ends.
use fabric_sdk_go_gm.Common.{
  ℕ, zero, suc, ◌+◌, ◌-◌, ◌≤◌, ◌<◌, ◌≡◌, ◌≢◌, refl, sym, ap, subst, ◌∙◌, Bool, true, false, ◌&&◌,
  Option, none, some, arith, ltb, leb,
}
use fabric_sdk_go_gm.Common.Outcome.{
  done, Returns, Returns-done, Returns-mono, Returns-if, Returns-option,
}
use fabric_sdk_go_gm.EventClient.{Surroundings, ConnectError, attempts_exceeded}
use fabric_sdk_go_gm.EventClient.Client.{
  Client, connected, disconnected, connect, connect_with_retry,
}
use fabric_sdk_go_gm.EventClient.Client.Attempts.{
  IsUsable, IsConnected, Attempted, connect-Attempted,
}

-- The attempts from one number to another, each of which returned an error, with the client before
-- the first and after the last.
pub data Failed (ready : ℕ → ℕ → Bool) (s : ℕ → Surroundings)
    : ℕ → Client → ℕ → Client → Type 0 where
  no_attempt : {n : ℕ} {c : Client} → Failed ready s n c n c
  attempt :
      {n m : ℕ} {c c1 c2 : Client} {e : ConnectError}
      → connect ready (s n) c ≡ done (c1, some e)
      → Failed ready s (n + 1) c1 m c2
      → Failed ready s n c m c2

module _ (ready : ℕ → ℕ → Bool) (s : ℕ → Surroundings) (limit : ℕ) where
  -- An attempt below the limit succeeds with this client, and all attempts before it failed.
  pub record Succeeded (attempts : ℕ) (c c' : Client) : Type 0 where
    pub tries : ℕ
    pub before : Client
    pub below : tries < limit
    pub failed : Failed ready s attempts c tries before
    pub succeeds : connect ready (s tries) before ≡ done (c', none)

  -- The result of the loop, which has not run out of fuel: the client is connected by an attempt, or
  -- it is disconnected after all attempts up to the limit failed. In both cases it can be used.
  abbrev pub Ended : ℕ → Client → Option (Client × Option ConnectError) → Type 0
  Ended attempts c none = ⊥
  Ended attempts c (some (c', none)) =
      IsUsable c' × (c'.connection_state ≡ connected) × IsConnected c'.ed × Succeeded attempts c c'
  Ended attempts c (some (c', some e)) =
      IsUsable c'
      × (c'.connection_state ≡ disconnected)
      × (e ≡ attempts_exceeded)
      × Failed ready s attempts c limit c'

  more_attempts :
      (attempts : ℕ)
      → attempts < limit
      → (ltb 0 limit && leb limit (attempts + 1)) ≡ false
      → attempts + 1 < limit
  more_attempts attempts h e = ground (arith, h, e)

  last_attempt :
      (attempts : ℕ)
      → attempts < limit
      → (ltb 0 limit && leb limit (attempts + 1)) ≡ true
      → attempts + 1 ≡ limit
  last_attempt attempts h e = ground (arith, h, e)

  -- A failed attempt before the others.
  Ended-attempt :
      (attempts : ℕ) (c : Client) {c1 : Client} {e : ConnectError}
      → connect ready (s attempts) c ≡ done (c1, some e)
      → (o : Option (Client × Option ConnectError)) → Ended (attempts + 1) c1 o
      → Ended attempts c o
  Ended-attempt attempts c p none h = h
  Ended-attempt attempts c p (some (c', none)) (u, w, v, t) = (
    u,
    w,
    v,
    record {
      tries = t.tries;
      before = t.before;
      below = t.below;
      failed = attempt p t.failed;
      succeeds = t.succeeds;
    },
  )
  Ended-attempt attempts c p (some (c', some e)) (u, w, x, f) = (u, w, x, attempt p f)

  succeeded :
      (attempts : ℕ) (c : Client) (r : Client × Option ConnectError)
      → attempts < limit
      → connect ready (s attempts) c ≡ done r
      → Attempted r
      → r.1 ≡ none
      → Ended attempts c (some (r.0, none))
  succeeded attempts c r h p a n =
      let (w, v) = a.connects n in
      (
        a.usable,
        w,
        v,
        record {
          tries = attempts;
          before = c;
          below = h;
          failed = no_attempt;
          succeeds = p ∙ ap (λ y. done (r.0, y)) n;
        },
      )

  -- If the attempts are limited, fewer than the limit were made before, and the fuel is at least the
  -- number of attempts that are left, then `connectWithRetry` of a usable client that is disconnected
  -- returns and the fuel suffices. Either an attempt below the limit succeeded after all attempts
  -- before it failed, and the client is connected and its dispatcher has a connection; or all attempts
  -- up to the limit failed, the error says that they are used up, and the client is disconnected.
  pub connect_with_retry-Ended :
      (fuel attempts : ℕ) (c : Client)
      → attempts < limit
      → limit - attempts ≤ fuel
      → IsUsable c
      → c.connection_state ≡ disconnected
      → Returns (Ended attempts c) (connect_with_retry ready s limit fuel attempts c)
  unfolding connect_with_retry
  connect_with_retry-Ended zero attempts c h f u e = let z : ⊥ = omega (arith, h, f) in absurd z
  connect_with_retry-Ended (suc fuel) attempts c h f u e =
      Returns-if (Ended attempts c) c.stopped _ _
        (λ g. let k = u.not_stopped in let z : ⊥ = cc in absurd z)
        λ _.
          Returns-done (Ended attempts c) Attempted (connect ready (s attempts) c) _
            (connect-Attempted ready (s attempts) c u e)
            λ r p a.
              Returns-option (Ended attempts c) r.1 _ _ (λ n. succeeded attempts c r h p a n)
                λ x n.
                  let failed : r.1 ≢ none = λ m. let z : none ≡ some x = sym m ∙ n in cc in
                  let q : connect ready (s attempts) c ≡ done (r.0, some x) =
                    p ∙ ap (λ y. done (r.0, y)) n in
                  Returns-if (Ended attempts c) (ltb 0 limit && leb limit (attempts + 1)) _ _
                    (λ m. (
                      a.usable,
                      a.gives_up failed,
                      refl,
                      attempt q (
                          subst (λ k. Failed ready s (attempts + 1) (r.0) k (r.0))
                            (last_attempt attempts h m) no_attempt),
                    ))
                    (λ m.
                      let more = more_attempts attempts h m in
                      Returns-mono (Ended (attempts + 1) (r.0)) (Ended attempts c)
                        (connect_with_retry ready s limit fuel (attempts + 1) (r.0))
                        (λ o k. Ended-attempt attempts c q o k)
                        (connect_with_retry-Ended fuel (attempts + 1) (r.0) more
                          (omega (arith, f, more)) a.usable (a.gives_up failed)))
