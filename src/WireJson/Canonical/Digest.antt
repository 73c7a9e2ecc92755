-- ===== src/WireJson/Canonical/Digest.antt =====
-- The bytes of src/serialization/canonical_json.ts.
use ghc_gateway.Base.{
  ◌≡◌, ◌↔◌, sym, ap, ◌∙◌, Bool, true, false, Text, length, max, All, if◌then◌else◌, arith,
}
use ghc_gateway.WireJson.Syntax.{
  WireJson, Items, Members, null, boolean, string, number, array, object, no_items, item,
  no_members, member,
}
use ghc_gateway.WireJson.Outcome.{ok}
use ghc_gateway.WireJson.StringTrip.{IsUnit}
use ghc_gateway.WireJson.Parser.{WireJsonParseLimits}
use ghc_gateway.WireJson.Writer.{serialize_wire_json}
use ghc_gateway.WireJson.RoundTrip.{
  IsWire, IsWireItems, IsWireMembers, nesting, parse-serialize, serialize-total,
}
use ghc_gateway.WireJson.Canonical.{
  precedes, insert_member, canonicalize_value, canonicalize_items, canonicalize_object,
  canonicalize_wire_json,
}
use ghc_gateway.WireJson.Canonical.Alike.{Alike, canonicalize_value_iff}

insert-IsWireMembers :
    (key : Text) (v : WireJson) (ms : Members)
    → All IsUnit key
    → IsWire v
    → IsWireMembers ms
    → IsWireMembers (insert_member key v ms)
unfolding insert_member IsWire
insert-IsWireMembers key v no_members k w h = (k, w, tt)
insert-IsWireMembers key v (member other old rest) k w h =
    judged (precedes other key) (insert-IsWireMembers key v rest k w h.2)
  where
    judged :
        (b : Bool)
        → IsWireMembers (insert_member key v rest)
        → IsWireMembers (
            if b
            then member other old (insert_member key v rest)
            else member key v (member other old rest))
    judged true g = (h.0, h.1, g)
    judged false g = (k, w, h)

mutual
  unfolding canonicalize_value IsWire

  canonicalize_value-IsWire : (v : WireJson) → IsWire v → IsWire (canonicalize_value v)
  canonicalize_value-IsWire null h = h
  canonicalize_value-IsWire (boolean b) h = h
  canonicalize_value-IsWire (string t) h = h
  canonicalize_value-IsWire (number l) h = h
  canonicalize_value-IsWire (array xs) h = canonicalize_items-IsWireItems xs h
  canonicalize_value-IsWire (object ms) h = canonicalize_object-IsWireMembers ms h

  canonicalize_items-IsWireItems :
      (xs : Items) → IsWireItems xs → IsWireItems (canonicalize_items xs)
  canonicalize_items-IsWireItems no_items h = h
  canonicalize_items-IsWireItems (item v xs) h =
      (canonicalize_value-IsWire v h.0, canonicalize_items-IsWireItems xs h.1)

  canonicalize_object-IsWireMembers :
      (ms : Members) → IsWireMembers ms → IsWireMembers (canonicalize_object ms)
  canonicalize_object-IsWireMembers no_members h = h
  canonicalize_object-IsWireMembers (member k v ms) h =
      insert-IsWireMembers k (canonicalize_value v) (canonicalize_object ms) h.0
        (canonicalize_value-IsWire v h.1) (canonicalize_object-IsWireMembers ms h.2)

ok_inj : {A : Type 0} {a b : A} → ok a ≡ ok b → a ≡ b
ok_inj e = cc

serialize_injective :
    (v w : WireJson) → IsWire v → IsWire w → serialize_wire_json v ≡ serialize_wire_json w → v ≡ w
serialize_injective v w hv hw e =
    let (b, written) = serialize-total v hv in
    let limits : WireJsonParseLimits = record {
      max_bytes = length b;
      max_depth = max (nesting v) (nesting w);
    } in
    ok_inj (
      sym (parse-serialize v b limits hv (omega arith) written (omega arith))
      ∙ parse-serialize w b limits hw (omega arith) (sym e ∙ written) (omega arith))

-- Of two values with strings of 16-bit units and JSON number lexemes, the canonical bytes are equal
-- exactly if the values differ only in the order of members with different keys, at any depth.
pub canonicalize_wire_json_iff :
    (v w : WireJson)
    → IsWire v
    → IsWire w
    → (canonicalize_wire_json v ≡ canonicalize_wire_json w) ↔ Alike v w
unfolding canonicalize_wire_json
canonicalize_wire_json_iff v w hv hw = (
  (λ e. (canonicalize_value_iff v w).0 (
      serialize_injective (canonicalize_value v) (canonicalize_value w)
        (canonicalize_value-IsWire v hv) (canonicalize_value-IsWire w hw) e)),
  λ h. ap serialize_wire_json ((canonicalize_value_iff v w).1 h),
)
