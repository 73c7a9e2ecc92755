-- ===== src/WireJson/Writer.antt =====
-- The writer of src/serialization/wire_json.ts: `writeValue` as the bytes that it appends.
use ghc_gateway.Base.{Bool, true, false, [], ◌∷◌, ◌++◌, Text, text, if◌then◌else◌}
use ghc_gateway.WireJson.Syntax.{
  WireJson, Items, Members, null, boolean, string, number, array, object, no_items, item,
  no_members, member,
}
use ghc_gateway.WireJson.Outcome.{Outcome, ok, raised, bind, Bytes, serialization_failure}
use ghc_gateway.WireJson.Strings.{write_json_string}
use ghc_gateway.WireJson.Numbers.{is_number_lexeme}

unfoldable pub write_number_lexeme : Text → Outcome Bytes
unfolding is_number_lexeme
write_number_lexeme lexeme =
    if is_number_lexeme lexeme then ok lexeme else raised serialization_failure

-- `if (index > 0) writer.writeByte(0x2c)`
abbrev pub comma : Bool → Bytes
comma true = []
comma false = 0x2c ∷ []

unfoldable mutual
  unfolding write_number_lexeme write_json_string

  pub write_value : WireJson → Outcome Bytes
  write_value null = ok (text "null")
  write_value (boolean true) = ok (text "true")
  write_value (boolean false) = ok (text "false")
  write_value (string value) = ok (write_json_string value)
  write_value (number lexeme) = write_number_lexeme lexeme
  write_value (array items) = bind (write_items true items) λ body. ok (0x5b ∷ (body ++ 0x5d ∷ []))
  write_value (object members) =
      bind (write_members true members) λ body. ok (0x7b ∷ (body ++ 0x7d ∷ []))

  pub write_items : Bool → Items → Outcome Bytes
  write_items first no_items = ok []
  write_items first (item value rest) =
      bind (write_value value)
        λ body. bind (write_items false rest) λ more. ok (comma first ++ (body ++ more))

  pub write_members : Bool → Members → Outcome Bytes
  write_members first no_members = ok []
  write_members first (member key value rest) = bind (write_value value) λ body.
      bind (write_members false rest)
        λ more. ok (comma first ++ (write_json_string key ++ 0x3a ∷ (body ++ more)))

unfoldable pub serialize_wire_json : WireJson → Outcome Bytes
unfolding write_value
serialize_wire_json value = write_value value
