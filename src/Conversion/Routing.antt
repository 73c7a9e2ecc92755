-- ===== src/Conversion/Routing.antt =====
-- src/protocols/conversion/routing.ts: the protocols to try for a request.
use ghc_gateway.Base.{◌≡◌, refl, Bool, true, false, List, [], ◌∷◌, any, keep, if◌then◌else◌, arith}

pub data InferenceProtocol : Type 0 where
  chat messages responses : InferenceProtocol

unfoldable pub same_protocol : InferenceProtocol → InferenceProtocol → Bool
same_protocol chat chat = true
same_protocol messages messages = true
same_protocol responses responses = true
same_protocol _ _ = false

pub same_protocol-eq : (p q : InferenceProtocol) → same_protocol p q ≡ true → p ≡ q
unfolding same_protocol
same_protocol-eq chat chat h = refl
same_protocol-eq messages messages h = refl
same_protocol-eq responses responses h = refl
same_protocol-eq _ _ h = cc

-- `protocols.includes(protocol)`
unfoldable pub has_protocol : List InferenceProtocol → InferenceProtocol → Bool
unfolding same_protocol
has_protocol protocols protocol = any (λ p. same_protocol p protocol) protocols

unfoldable pub priorities : InferenceProtocol → List InferenceProtocol
priorities chat = responses ∷ messages ∷ []
priorities messages = chat ∷ responses ∷ []
priorities responses = chat ∷ messages ∷ []

unfoldable pub protocol_targets :
    InferenceProtocol → List InferenceProtocol → List InferenceProtocol
unfolding priorities
protocol_targets source protocols =
    if has_protocol protocols source
    then source ∷ []
    else keep (λ target. has_protocol protocols target) (priorities source)

-- A protocol is a target exactly if it is the source, where the source is supported, and exactly if
-- it is supported, where the source is not.
pub protocol_targets-supported :
    (source target : InferenceProtocol) (protocols : List InferenceProtocol)
    → has_protocol (protocol_targets source protocols) target ≡ (
        if has_protocol protocols source
        then same_protocol source target
        else has_protocol protocols target)
unfolding protocol_targets has_protocol
protocol_targets-supported chat chat protocols = ground arith
protocol_targets-supported chat messages protocols = ground arith
protocol_targets-supported chat responses protocols = ground arith
protocol_targets-supported messages chat protocols = ground arith
protocol_targets-supported messages messages protocols = ground arith
protocol_targets-supported messages responses protocols = ground arith
protocol_targets-supported responses chat protocols = ground arith
protocol_targets-supported responses messages protocols = ground arith
protocol_targets-supported responses responses protocols = ground arith
