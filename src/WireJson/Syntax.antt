-- ===== src/WireJson/Syntax.antt =====
-- The values of src/serialization/wire_json.ts and the queries on an object's members.
use ghc_gateway.Base.{Bool, true, false, List, [], ◌∷◌, ◌++◌, Text, same_text, any, if◌then◌else◌}

-- A string is its UTF-16 code units, and a number is its lexeme.
mutual
  pub data WireJson : Type 0 where
    null : WireJson
    boolean : Bool → WireJson
    string : Text → WireJson
    number : Text → WireJson
    array : Items → WireJson
    object : Members → WireJson

  pub data Items : Type 0 where
    no_items : Items
    item : WireJson → Items → Items

  pub data Members : Type 0 where
    no_members : Members
    member : Text → WireJson → Members → Members

unfoldable pub is_wire_json_number : WireJson → Bool
is_wire_json_number (number _) = true
is_wire_json_number _ = false

unfoldable pub is_wire_json_array : WireJson → Bool
is_wire_json_array (array _) = true
is_wire_json_array _ = false

unfoldable pub is_wire_json_object : WireJson → Bool
is_wire_json_object (object _) = true
is_wire_json_object _ = false

unfoldable pub item_list : Items → List WireJson
item_list no_items = []
item_list (item value rest) = value ∷ item_list rest

unfoldable pub member_keys : Members → List Text
member_keys no_members = []
member_keys (member key value rest) = key ∷ member_keys rest

unfoldable pub member_values : Members → Text → List WireJson
member_values no_members key = []
member_values (member name value rest) key =
    if same_text name key then value ∷ member_values rest key else member_values rest key

-- `seen`, `reported` and `duplicates` grow as the source's two sets and its result do.
abbrev pub has : List Text → Text → Bool
has names name = any (λ other. same_text other name) names

unfoldable pub duplicate_names : List Text → List Text → List Text → List Text → List Text
duplicate_names seen reported duplicates [] = duplicates
duplicate_names seen reported duplicates (name ∷ names) =
    let again = duplicate_names seen (name ∷ reported) (duplicates ++ name ∷ []) names in
    let skip = duplicate_names seen reported duplicates names in
    let first = duplicate_names (name ∷ seen) reported duplicates names in
    if has seen name then (if has reported name then skip else again) else first

unfoldable pub duplicate_member_names : Members → List Text
unfolding duplicate_names member_keys
duplicate_member_names members = duplicate_names [] [] [] (member_keys members)
