-- ===== src/Conversion/Ledger.antt =====
-- src/protocols/conversion/ledger.ts: `SemanticItemLedger`, which collects the items of a streamed
-- response under a byte budget. Here the state and the parts that every operation uses; the children
-- hold the operations.
pub mod Encoding
pub mod Messages
pub mod Tools
pub mod Budget
pub mod Texts
pub mod Runs
pub mod Finishing
pub mod Reasoning
pub mod ReasoningItems
pub mod OpaqueBudget
pub mod ReasoningBudget
pub mod ReasoningFinished
pub mod ReasoningTests
pub mod Tests
use ghc_gateway.Base.{
  ℕ, ◌+◌, ◌≡◌, refl, Bool, true, false, Option, none, some, List, [], ◌∷◌, ◌++◌, Text, lookup,
  insert, ltb, if◌then◌else◌,
}
use ghc_gateway.Gateway.Failures.{
  GatewayFailure, Thrown, gateway_failure, static, invalid_upstream_response, converter, stream,
}
use ghc_gateway.WireJson.Syntax.{Members}
use Encoding.{utf8_length}

pub record ToolState : Type 0 where
  pub item_id : Option Text
  pub call_id : Text
  pub name : Text
  pub arguments_json : Text
  pub done : Bool

pub record MessageState : Type 0 where
  pub part_keys : List Text
  pub frozen : Bool

pub record MessagePartState : Type 0 where
  pub group_key : Text
  pub text_value : Text
  pub refusal_value : Text
  pub text_seen : Bool
  pub refusal_seen : Bool
  pub part_frozen : Bool

pub data EntryKind : Type 0 where
  message_entry reasoning_entry tool_entry : EntryKind

pub data ReasoningPresentation : Type 0 where
  summary content : ReasoningPresentation

pub data ReasoningStatus : Type 0 where
  completed incomplete in_progress : ReasoningStatus

-- `SemanticMessagesReasoningState`
pub data MessagesReasoningState : Type 0 where
  thinking : (thought signature : Text) → MessagesReasoningState
  redacted_thinking : (redacted : Text) → MessagesReasoningState

-- `SemanticOpaqueReasoningState`, each with the members of its object.
pub data OpaqueReasoningState : Type 0 where
  responses_item messages_block chat_state : Members → OpaqueReasoningState

pub record ReasoningState : Type 0 where
  pub reasoning_id : Option Text
  pub reasoning_part_keys : List Text
  pub status : Option ReasoningStatus
  pub reasoning_frozen : Bool
  pub messages_state : Option MessagesReasoningState
  pub opaque_state : Option OpaqueReasoningState

pub record ReasoningPartState : Type 0 where
  pub item_key : Text
  pub presentation : ReasoningPresentation
  pub index : ℕ
  pub reasoning_text : Text
  pub reasoning_part_frozen : Bool

-- The maps are kept by key, so a state's own `key` field is its key in the map.
pub record SemanticItemLedger : Type 0 where
  pub max_bytes : ℕ
  pub used_bytes : ℕ
  pub tools : List (Text × ToolState)
  pub call_ids : List Text
  pub messages : List (Text × MessageState)
  pub message_parts : List (Text × MessagePartState)
  pub reasoning : List (Text × ReasoningState)
  pub reasoning_parts : List (Text × ReasoningPartState)
  pub order : List (EntryKind × Text)

abbrev pub empty_ledger : ℕ → SemanticItemLedger
empty_ledger max_bytes = record {
  max_bytes = max_bytes;
  used_bytes = 0;
  tools = [];
  call_ids = [];
  messages = [];
  message_parts = [];
  reasoning = [];
  reasoning_parts = [];
  order = [];
}

pub data Result {ℓ} (A : Type ℓ) : Type ℓ where
  ok : A → Result A
  throws : Thrown → Result A

-- A method: what it changed before it threw stays changed.
abbrev pub Method : Type 0 → Type 0
Method A = SemanticItemLedger → SemanticItemLedger × Result A

abbrev pub proceed :
    {A B : Type 0} → SemanticItemLedger × Result A → (A → Method B) → SemanticItemLedger × Result B
proceed (s, ok a) f = f a s
proceed (s, throws e) f = (s, throws e)

infixl 1 ◌>>=◌ ◌>>◌
abbrev pub ◌>>=◌ : {A B : Type 0} → Method A → (A → Method B) → Method B
◌>>=◌ m f s = proceed (m s) f

abbrev pub ◌>>◌ : {B : Type 0} → Method (Unit {0}) → Method B → Method B
m >> k = m >>= λ _. k

abbrev pub return : {A : Type 0} → A → Method A
return a s = (s, ok a)

abbrev pub modify : (SemanticItemLedger → SemanticItemLedger) → Method (Unit {0})
modify f s = (f s, ok tt)

-- A branch on what a map holds at a key.
abbrev pub found_or : {V B : Type 0} → Option V → Method B → (V → Method B) → Method B
found_or none m f = m
found_or (some v) m f = f v

abbrev pub stream_failure : GatewayFailure
stream_failure = record {
  kind = static invalid_upstream_response;
  source = some converter;
  phase = some stream;
  cause = none;
}

unfoldable pub invalid : {A : Type 0} → Method A
invalid s = (s, throws (gateway_failure stream_failure))

unfoldable pub reserve : Text → Method (Unit {0})
reserve value s =
    let used = s.used_bytes + utf8_length value in
    (
      record s { used_bytes = used },
      if ltb s.max_bytes used then throws (gateway_failure stream_failure) else ok tt,
    )
