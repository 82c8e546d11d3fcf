-- ===== src/Selection/Groups/Policy.antt =====
-- pgresolverimpl.go: a signature policy, compiled to the groups of peers that satisfy it. The protocol
-- messages are read through their fields, and what a principal holds is decoded by an argument.
use fabric_sdk_go_gm.Common.{
  zero, suc, List, [], ◌∷◌, Option, none, some, length, get_elem?, ltb, if◌then◌else◌,
}
use fabric_sdk_go_gm.Common.Int.{ℤ, pos, negsuc}
use fabric_sdk_go_gm.Common.Text.{Text}
use fabric_sdk_go_gm.Common.Outcome.{Panic, index_out_of_range}
use fabric_sdk_go_gm.Fab.{Bytes}
use fabric_sdk_go_gm.Selection.Groups.{Group, msp_group, Retriever, items_of, new_group_of_groups}
use fabric_sdk_go_gm.Selection.Groups.Combination.{get_combinations}

-- common.SignaturePolicy. The index of a signer is an int32, negative for no identity.
mutual
  pub data SignaturePolicy : Type 0 where
    nil_policy : SignaturePolicy
    signed_by : ℤ → SignaturePolicy
    n_out_of : ℤ → SignaturePolicies → SignaturePolicy
    unknown_policy : SignaturePolicy

  pub data SignaturePolicies : Type 0 where
    end : SignaturePolicies
    rule : SignaturePolicy → SignaturePolicies → SignaturePolicies

pub data Classification : Type 0 where
  role organization_unit identity other_classification : Classification

pub record MspPrincipal : Type 0 where
  pub principal_classification : Classification
  pub principal : Bytes

-- The MSP identifier in a role and in an organization unit; `none` is an error of the decoder.
pub record Decoder : Type 0 where
  pub role_msp : Bytes → Option Text
  pub unit_msp : Bytes → Option Text

pub data PolicyError : Type 0 where
  nil_signature_policy unsupported_policy_type bad_principal unsupported_principal : PolicyError
  threshold_too_great threshold_not_positive : PolicyError

pub data Result (A : Type 0) : Type 0 where
  ok : A → Result A
  err : PolicyError → Result A
  panicked : Panic → Result A

infixl 5 ◌>>=◌
abbrev pub ◌>>=◌ : {A B : Type 0} → Result A → (A → Result B) → Result B
ok a >>= f = f a
err e >>= f = err e
panicked p >>= f = panicked p

abbrev pub or_err : {A : Type 0} → Option A → PolicyError → Result A
or_err none e = err e
or_err (some a) e = ok a

unfoldable pub msp_principal_to_string : Decoder → MspPrincipal → Result Text
msp_principal_to_string d p = elim p.principal_classification [
  | role ↦ or_err (d.role_msp p.principal) bad_principal
  | organization_unit ↦ or_err (d.unit_msp p.principal) bad_principal
  | identity ↦ err unsupported_principal
  | other_classification ↦ err unsupported_principal
]

-- `identities[i]`.
unfoldable pub identity_at : List MspPrincipal → ℤ → Result MspPrincipal
identity_at ids (negsuc i) = panicked index_out_of_range
identity_at ids (pos i) = elim (get_elem? ids i) [
  | none ↦ panicked index_out_of_range
  | some p ↦ ok p
]

module _ (retrieve : Retriever) where
  -- `Nof`, of a group of groups given by its groups.
  unfoldable pub n_of : ℤ → List Group → Result Group
  n_of (negsuc n) gs = err threshold_not_positive
  n_of (pos zero) gs = err threshold_not_positive
  n_of (pos (suc k)) gs =
      if ltb (length gs) (suc k)
      then err threshold_too_great
      else ok (
          new_group_of_groups
            (get_combinations retrieve k (items_of retrieve (new_group_of_groups gs))))

  module _ (d : Decoder) (ids : List MspPrincipal) where
    -- A GroupRetriever, called with the retriever of the section.
    unfoldable pub signature_policy_signed_by : ℤ → Result Group
    signature_policy_signed_by i =
        identity_at ids i
        >>= (λ p. msp_principal_to_string d p >>= λ m. ok (new_group_of_groups (msp_group m ∷ [])))

    unfoldable pub signature_policy_signed_by_any : Result Group
    signature_policy_signed_by_any = ok (new_group_of_groups (msp_group [] ∷ []))

    -- The loop over the compiled rules.
    unfoldable pub retrieve_all : List (Result Group) → Result (List Group)
    retrieve_all [] = ok []
    retrieve_all (f ∷ fs) = f >>= λ g. retrieve_all fs >>= λ gs. ok (g ∷ gs)

    -- The outer result is that of the compilation, the inner one that of the group retriever.
    unfoldable mutual
      unfolding n_of retrieve_all signature_policy_signed_by signature_policy_signed_by_any

      pub compile : SignaturePolicy → Result (Result Group)
      compile nil_policy = err nil_signature_policy
      compile (signed_by i) = ok (signature_policy_signed_by i)
      compile (n_out_of (pos zero) rules) = ok signature_policy_signed_by_any
      compile (n_out_of (pos (suc k)) rules) =
          compile_rules rules >>= λ fs. ok (retrieve_all fs >>= n_of (pos (suc k)))
      compile (n_out_of (negsuc k) rules) =
          compile_rules rules >>= λ fs. ok (retrieve_all fs >>= n_of (negsuc k))
      compile unknown_policy = err unsupported_policy_type

      pub compile_rules : SignaturePolicies → Result (List (Result Group))
      compile_rules end = ok []
      compile_rules (rule p ps) = compile p >>= λ f. compile_rules ps >>= λ fs. ok (f ∷ fs)
