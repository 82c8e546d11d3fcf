-- ===== src/Service/Keys.antt =====
-- dispatcher.go: the keys of the chaincode registrations.
use fabric_sdk_go_gm.Common.{◌≡◌, refl, ◌≢◌, [], ◌∷◌, All}
use fabric_sdk_go_gm.Common.Text.{Text}
use fabric_sdk_go_gm.Service.Dispatcher.{get_cc_key}

-- A chaincode identifier without a slash.
abbrev pub NoSlash : Text → Type 0
NoSlash = All (λ c. c ≢ 47)

-- Two chaincode identifiers without a slash, each with an event filter, have the same key only if
-- they are the same and the event filters are the same.
pub get_cc_key-injective :
    (a b f g : Text) → NoSlash a → NoSlash b → get_cc_key a f ≡ get_cc_key b g → (a ≡ b) × (f ≡ g)
unfolding get_cc_key
get_cc_key-injective [] [] f g p q e = (refl, cc)
get_cc_key-injective [] (y ∷ b) f g p q e = let h : y ≡ 47 = cc in absurd (q.0 h)
get_cc_key-injective (x ∷ a) [] f g p q e = let h : x ≡ 47 = cc in absurd (p.0 h)
get_cc_key-injective (x ∷ a) (y ∷ b) f g p q e =
    let head : x ≡ y = cc in
    let tail : get_cc_key a f ≡ get_cc_key b g = cc in
    let (s, t) = get_cc_key-injective a b f g p.1 q.1 tail in (cc, t)
