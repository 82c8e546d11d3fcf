-- ===== src/Selection/Groups/Principals.antt =====
-- pgresolverimpl.go: the policies that can be compiled, said of the identities of a policy and of what
-- their principals hold, without the code that looks them up.
use fabric_sdk_go_gm.Common.{
  ℕ, zero, suc, ◌≤◌, ◌≡◌, refl, ap, ◌∙◌, ◌⊎◌, inl, inr, List, [], ◌∷◌, Option, none, some,
  get_elem?,
}
use fabric_sdk_go_gm.Common.Int.{ℤ, pos, negsuc}
use fabric_sdk_go_gm.Common.Text.{Text}
use fabric_sdk_go_gm.Selection.Groups.Policy.{
  SignaturePolicy, nil_policy, signed_by, n_out_of, unknown_policy, SignaturePolicies, end, rule,
  Classification, role, organization_unit, identity, other_classification, MspPrincipal, Decoder,
  ok, PolicyError, ◌>>=◌, or_err, msp_principal_to_string, identity_at,
}
use fabric_sdk_go_gm.Selection.Groups.Satisfaction.{
  signer, Succeeds, IsWellFormed, AreWellFormed, count_rules,
}

-- A principal is a role or an organization unit of an MSP.
abbrev pub BelongsTo : Decoder → MspPrincipal → Text → Type 0
BelongsTo d p m =
    ((p.principal_classification ≡ role) × (d.role_msp p.principal ≡ some m))
    ⊎ ((p.principal_classification ≡ organization_unit) × (d.unit_msp p.principal ≡ some m))

-- The identity that stands at a place.
abbrev pub StandsAt : List MspPrincipal → ℕ → MspPrincipal → Type 0
StandsAt [] i p = ⊥
StandsAt (q ∷ ids) zero p = q ≡ p
StandsAt (q ∷ ids) (suc i) p = StandsAt ids i p

-- The signer is the index of an identity, and that is a role or an organization unit of an MSP.
abbrev pub IsSigner : Decoder → List MspPrincipal → ℤ → Type 0
IsSigner d ids (negsuc i) = ⊥
IsSigner d ids (pos i) = (p : MspPrincipal) × (m : Text) × StandsAt ids i p × BelongsTo d p m

StandsAt-get :
    (ids : List MspPrincipal) (i : ℕ) (p : MspPrincipal)
    → StandsAt ids i p
    → get_elem? ids i ≡ some p
StandsAt-get [] i p h = absurd h
StandsAt-get (q ∷ ids) zero p h = ap some h
StandsAt-get (q ∷ ids) (suc i) p h = StandsAt-get ids i p h

get-StandsAt :
    (ids : List MspPrincipal) (i : ℕ) (p : MspPrincipal)
    → get_elem? ids i ≡ some p
    → StandsAt ids i p
get-StandsAt [] i p h = cc
get-StandsAt (q ∷ ids) zero p h = cc
get-StandsAt (q ∷ ids) (suc i) p h = get-StandsAt ids i p h

or_err-some : {A : Type 0} (o : Option A) (e : PolicyError) (a : A) → or_err o e ≡ ok a → o ≡ some a
or_err-some none e a h = cc
or_err-some (some b) e a h = cc

BelongsTo-named :
    (d : Decoder) (p : MspPrincipal) (m : Text)
    → BelongsTo d p m
    → msp_principal_to_string d p ≡ ok m
unfolding msp_principal_to_string
BelongsTo-named d p m (inl (c, e)) = rw (c, e) refl
BelongsTo-named d p m (inr (c, e)) = rw (c, e) refl

named-BelongsTo :
    (d : Decoder) (p : MspPrincipal) (m : Text)
    → msp_principal_to_string d p ≡ ok m
    → BelongsTo d p m
unfolding msp_principal_to_string
named-BelongsTo d p m h = classified p.principal_classification refl h
  where
    classified :
        (c : Classification)
        → p.principal_classification ≡ c
        → msp_principal_to_string d (record p { principal_classification = c }) ≡ ok m
        → BelongsTo d p m
    classified role e h = inl (e, or_err-some (d.role_msp p.principal) _ m h)
    classified organization_unit e h = inr (e, or_err-some (d.unit_msp p.principal) _ m h)
    classified identity e h = cc
    classified other_classification e h = cc

pub signer-IsSigner :
    (d : Decoder) (ids : List MspPrincipal) (i : ℤ) → Succeeds (signer d ids i) → IsSigner d ids i
unfolding identity_at
signer-IsSigner d ids (negsuc i) (m, e) = cc
signer-IsSigner d ids (pos i) (m, e) = found (get_elem? ids i) refl e
  where
    found :
        (o : Option MspPrincipal)
        → get_elem? ids i ≡ o
        → (elim o [ none ↦ identity_at ids (negsuc 0) | some p ↦ ok p ]
            >>= msp_principal_to_string d)
          ≡ ok m
        → IsSigner d ids (pos i)
    found none f h = cc
    found (some p) f h = (p, m, get-StandsAt ids i p f, named-BelongsTo d p m h)

pub IsSigner-signer :
    (d : Decoder) (ids : List MspPrincipal) (i : ℤ) → IsSigner d ids i → Succeeds (signer d ids i)
unfolding identity_at
IsSigner-signer d ids (negsuc i) h = absurd h
IsSigner-signer d ids (pos i) (p, m, s, b) = (
  m,
  ap
        (λ o.
          elim o [ none ↦ identity_at ids (negsuc 0) | some q ↦ ok q ]
          >>= msp_principal_to_string d)
        (StandsAt-get ids i p s)
      ∙ BelongsTo-named d p m b,
)

module _ (d : Decoder) (ids : List MspPrincipal) where
  -- The signers of a policy are signers of identities, and its thresholds are not negative and can be
  -- reached. The rules below a threshold of 0 are not looked at.
  unfoldable mutual
    pub IsAdmissible : SignaturePolicy → Type 0
    IsAdmissible nil_policy = ⊥
    IsAdmissible (signed_by i) = IsSigner d ids i
    IsAdmissible (n_out_of (pos zero) rules) = Unit
    IsAdmissible (n_out_of (pos (suc k)) rules) =
        (suc k ≤ count_rules d ids rules) × AreAdmissible rules
    IsAdmissible (n_out_of (negsuc k) rules) = ⊥
    IsAdmissible unknown_policy = ⊥

    pub AreAdmissible : SignaturePolicies → Type 0
    AreAdmissible end = Unit
    AreAdmissible (rule p ps) = IsAdmissible p × AreAdmissible ps

  mutual
    unfolding IsWellFormed IsAdmissible

    pub well_formed-IsAdmissible : (p : SignaturePolicy) → IsWellFormed d ids p → IsAdmissible p
    well_formed-IsAdmissible nil_policy h = h
    well_formed-IsAdmissible (signed_by i) h = signer-IsSigner d ids i h
    well_formed-IsAdmissible (n_out_of (pos zero) rules) h = tt
    well_formed-IsAdmissible (n_out_of (pos (suc k)) rules) h =
        (h.0, well_formed-AreAdmissible rules h.1)
    well_formed-IsAdmissible (n_out_of (negsuc k) rules) h = h
    well_formed-IsAdmissible unknown_policy h = h

    well_formed-AreAdmissible : (ps : SignaturePolicies) → AreWellFormed d ids ps → AreAdmissible ps
    well_formed-AreAdmissible end h = tt
    well_formed-AreAdmissible (rule p ps) h =
        (well_formed-IsAdmissible p h.0, well_formed-AreAdmissible ps h.1)

  mutual
    unfolding IsWellFormed IsAdmissible

    pub admissible-IsWellFormed : (p : SignaturePolicy) → IsAdmissible p → IsWellFormed d ids p
    admissible-IsWellFormed nil_policy h = h
    admissible-IsWellFormed (signed_by i) h = IsSigner-signer d ids i h
    admissible-IsWellFormed (n_out_of (pos zero) rules) h = tt
    admissible-IsWellFormed (n_out_of (pos (suc k)) rules) h =
        (h.0, admissible-AreWellFormed rules h.1)
    admissible-IsWellFormed (n_out_of (negsuc k) rules) h = h
    admissible-IsWellFormed unknown_policy h = h

    admissible-AreWellFormed : (ps : SignaturePolicies) → AreAdmissible ps → AreWellFormed d ids ps
    admissible-AreWellFormed end h = tt
    admissible-AreWellFormed (rule p ps) h =
        (admissible-IsWellFormed p h.0, admissible-AreWellFormed ps h.1)
