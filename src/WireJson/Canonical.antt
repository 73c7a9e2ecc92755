-- ===== src/WireJson/Canonical.antt =====
-- src/serialization/canonical_json.ts: the bytes that do not depend on the order of members.
pub mod Alike
pub mod Digest
use ghc_gateway.Base.{ℕ, Bool, true, false, List, [], ◌∷◌, Text, ltb, ◌==◌, if◌then◌else◌}
use ghc_gateway.WireJson.Syntax.{
  WireJson, Items, Members, null, boolean, string, number, array, object, no_items, item,
  no_members, member,
}
use ghc_gateway.WireJson.Outcome.{Outcome, Bytes}
use ghc_gateway.WireJson.Strings.{code_points}
use ghc_gateway.WireJson.Writer.{serialize_wire_json}

-- `compareUnicodeCodePoints` is negative, on the code points.
unfoldable pub points_precede : List ℕ → List ℕ → Bool
points_precede [] [] = false
points_precede [] (right ∷ rights) = true
points_precede (left ∷ lefts) [] = false
points_precede (left ∷ lefts) (right ∷ rights) =
    if left == right then points_precede lefts rights else ltb left right

unfoldable pub precedes : Text → Text → Bool
unfolding points_precede
precedes left right = points_precede (code_points left) (code_points right)

-- A member goes behind those whose keys precede its own, and before those with the same key, which
-- have greater indices: so `ranked` is sorted from its end.
unfoldable pub insert_member : Text → WireJson → Members → Members
insert_member key value no_members = member key value no_members
insert_member key value (member other old rest) =
    if precedes other key
    then member other old (insert_member key value rest)
    else member key value (member other old rest)

-- The values are canonicalized as their members are put in place.
unfoldable mutual
  pub canonicalize_value : WireJson → WireJson
  canonicalize_value null = null
  canonicalize_value (boolean b) = boolean b
  canonicalize_value (string t) = string t
  canonicalize_value (number lexeme) = number lexeme
  canonicalize_value (array items) = array (canonicalize_items items)
  canonicalize_value (object members) = object (canonicalize_object members)

  pub canonicalize_items : Items → Items
  canonicalize_items no_items = no_items
  canonicalize_items (item value rest) = item (canonicalize_value value) (canonicalize_items rest)

  pub canonicalize_object : Members → Members
  canonicalize_object no_members = no_members
  canonicalize_object (member key value rest) =
      insert_member key (canonicalize_value value) (canonicalize_object rest)

unfoldable pub canonicalize_wire_json : WireJson → Outcome Bytes
canonicalize_wire_json value = serialize_wire_json (canonicalize_value value)
