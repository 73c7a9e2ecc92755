-- ===== src/WireJson/Canonical/Alike.antt =====
-- Values of src/serialization/canonical_json.ts that differ only in the order of members.
use ghc_gateway.Base.{
  ℕ, ◌≡◌, ◌↔◌, inl, inr, refl, sym, ap, ◌∙◌, subst, Bool, true, false, List, [], ◌∷◌, Text,
  same_text, same_text_iff, if◌then◌else◌, Bool-cases, arith,
}
use ghc_gateway.WireJson.Syntax.{
  WireJson, Items, Members, null, boolean, string, number, array, object, no_items, item,
  no_members, member,
}
use ghc_gateway.WireJson.Strings.{code_points}
use ghc_gateway.WireJson.Canonical.{
  points_precede, precedes, insert_member, canonicalize_value, canonicalize_items,
  canonicalize_object,
}

-- Alike: equal but for the order of members, at any depth, where members with one key keep theirs.
mutual
  pub data Alike : WireJson → WireJson → Type 0 where
    same : {v : WireJson} → Alike v v
    back : {v w : WireJson} → Alike v w → Alike w v
    via : {u v w : WireJson} → Alike u v → Alike v w → Alike u w
    items_alike : {xs ys : Items} → AlikeItems xs ys → Alike (array xs) (array ys)
    members_alike : {ms ns : Members} → AlikeMembers ms ns → Alike (object ms) (object ns)

  pub data AlikeItems : Items → Items → Type 0 where
    no_items_alike : AlikeItems no_items no_items
    item_alike :
        {v w : WireJson} {xs ys : Items}
        → Alike v w
        → AlikeItems xs ys
        → AlikeItems (item v xs) (item w ys)

  pub data AlikeMembers : Members → Members → Type 0 where
    no_members_alike : AlikeMembers no_members no_members
    member_alike :
        {key : Text} {v w : WireJson} {ms ns : Members}
        → Alike v w
        → AlikeMembers ms ns
        → AlikeMembers (member key v ms) (member key w ns)
    swap :
        {key other : Text} {v w : WireJson} {ms : Members}
        → same_text (code_points key) (code_points other) ≡ false
        → AlikeMembers (member key v (member other w ms)) (member other w (member key v ms))
    members_then :
        {ls ms ns : Members} → AlikeMembers ls ms → AlikeMembers ms ns → AlikeMembers ls ns

-- The order of code points is total and transitive.
points_irreflexive : (a b : List ℕ) → points_precede a b ≡ true → points_precede b a ≡ false
unfolding points_precede
points_irreflexive [] [] h = refl
points_irreflexive [] (y ∷ b) h = refl
points_irreflexive (x ∷ a) [] h = ground (arith, h)
points_irreflexive (x ∷ a) (y ∷ b) h = ground (arith, h, points_irreflexive a b)

points_total :
    (a b : List ℕ) → same_text a b ≡ false → points_precede a b ≡ false → points_precede b a ≡ true
unfolding points_precede same_text
points_total [] [] h g = ground (arith, h)
points_total [] (y ∷ b) h g = ground (arith, g)
points_total (x ∷ a) [] h g = refl
points_total (x ∷ a) (y ∷ b) h g = ground (arith, h, g, points_total a b)

points_trans :
    (a b c : List ℕ)
    → points_precede a b ≡ true
    → points_precede b c ≡ true
    → points_precede a c ≡ true
unfolding points_precede
points_trans [] [] c h g = ground (arith, h)
points_trans [] (y ∷ b) [] h g = ground (arith, g)
points_trans [] (y ∷ b) (z ∷ c) h g = refl
points_trans (x ∷ a) [] c h g = ground (arith, h)
points_trans (x ∷ a) (y ∷ b) [] h g = ground (arith, g)
points_trans (x ∷ a) (y ∷ b) (z ∷ c) h g = ground (arith, h, g, points_trans a b c)

precedes_irreflexive : (a b : Text) → precedes a b ≡ true → precedes b a ≡ false
unfolding precedes
precedes_irreflexive a b = points_irreflexive (code_points a) (code_points b)

precedes_trans : (a b c : Text) → precedes a b ≡ true → precedes b c ≡ true → precedes a c ≡ true
unfolding precedes
precedes_trans a b c = points_trans (code_points a) (code_points b) (code_points c)

-- Where `j` precedes `k`, their members go in place in either order.
insert_ordered :
    (k j : Text) (v w : WireJson) (ms : Members)
    → precedes j k ≡ true
    → precedes k j ≡ false
    → ((i : Text) → precedes i j ≡ true → precedes i k ≡ true)
    → insert_member k v (insert_member j w ms) ≡ insert_member j w (insert_member k v ms)
unfolding insert_member
insert_ordered k j v w no_members h g t = rw (h, g) refl
insert_ordered k j v w (member i u ms) h g t = ground (arith, t i, insert_ordered k j v w ms h g t)

insert_comm :
    (k j : Text) (v w : WireJson) (ms : Members)
    → same_text (code_points k) (code_points j) ≡ false
    → insert_member k v (insert_member j w ms) ≡ insert_member j w (insert_member k v ms)
insert_comm k j v w ms apart = elim (Bool-cases (precedes k j)) [
  | inl below ↦ sym (
      insert_ordered j k w v ms below (precedes_irreflexive k j below)
        (λ i h. precedes_trans i k j h below))
  | inr above ↦
      let over : precedes j k ≡ true =
        unfold precedes in points_total (code_points k) (code_points j) apart above in
      insert_ordered k j v w ms over above (λ i h. precedes_trans i j k h over)
]

item_cong : {v w : WireJson} {xs ys : Items} → v ≡ w → xs ≡ ys → item v xs ≡ item w ys
item_cong p q = cc

insert_cong :
    (key : Text) {v w : WireJson} {ms ns : Members}
    → v ≡ w
    → ms ≡ ns
    → insert_member key v ms ≡ insert_member key w ns
insert_cong key p q = cc

-- Canonicalizing does not see the order of members.
mutual
  unfolding canonicalize_value

  canonicalize-Alike : {v w : WireJson} → Alike v w → canonicalize_value v ≡ canonicalize_value w
  canonicalize-Alike same = refl
  canonicalize-Alike (back h) = sym (canonicalize-Alike h)
  canonicalize-Alike (via h g) = canonicalize-Alike h ∙ canonicalize-Alike g
  canonicalize-Alike (items_alike h) = ap array (canonicalize_items-AlikeItems h)
  canonicalize-Alike (members_alike h) = ap object (canonicalize_object-AlikeMembers h)

  canonicalize_items-AlikeItems :
      {xs ys : Items} → AlikeItems xs ys → canonicalize_items xs ≡ canonicalize_items ys
  canonicalize_items-AlikeItems no_items_alike = refl
  canonicalize_items-AlikeItems (item_alike h g) =
      item_cong (canonicalize-Alike h) (canonicalize_items-AlikeItems g)

  canonicalize_object-AlikeMembers :
      {ms ns : Members} → AlikeMembers ms ns → canonicalize_object ms ≡ canonicalize_object ns
  canonicalize_object-AlikeMembers no_members_alike = refl
  canonicalize_object-AlikeMembers (member_alike {key = key} h g) =
      insert_cong key (canonicalize-Alike h) (canonicalize_object-AlikeMembers g)
  canonicalize_object-AlikeMembers
        (swap {key = key} {other = other} {v = v} {w = w} {ms = ms} apart) =
      insert_comm key other (canonicalize_value v) (canonicalize_value w) (canonicalize_object ms)
        apart
  canonicalize_object-AlikeMembers (members_then h g) =
      canonicalize_object-AlikeMembers h ∙ canonicalize_object-AlikeMembers g

members_same : (ms : Members) → AlikeMembers ms ms
members_same no_members = no_members_alike
members_same (member k v ms) = member_alike same (members_same ms)

points_same : (a : List ℕ) → points_precede a a ≡ false
unfolding points_precede
points_same [] = refl
points_same (x ∷ a) = ground (arith, points_same a)

-- A key that precedes another is another.
precedes-apart :
    (j k : Text) → precedes j k ≡ true → same_text (code_points k) (code_points j) ≡ false
unfolding precedes
precedes-apart j k h = judged (same_text (code_points k) (code_points j)) refl
  where
    judged : (b : Bool) → same_text (code_points k) (code_points j) ≡ b → b ≡ false
    judged false e = refl
    judged true e =
        let equal : code_points k ≡ code_points j =
          (same_text_iff (code_points k) (code_points j)).0 e in
        sym (subst (λ p. points_precede (code_points j) p ≡ true) equal h)
        ∙ points_same (code_points j)

-- A member that is put in place passes only members with other keys.
insert-AlikeMembers :
    (k : Text) (v : WireJson) (ms : Members) → AlikeMembers (member k v ms) (insert_member k v ms)
unfolding insert_member
insert-AlikeMembers k v no_members = member_alike same no_members_alike
insert-AlikeMembers k v (member j w ms) = judged (precedes j k) refl (insert-AlikeMembers k v ms)
  where
    judged :
        (b : Bool)
        → precedes j k ≡ b
        → AlikeMembers (member k v ms) (insert_member k v ms)
        → AlikeMembers
            (member k v (member j w ms))
            (if b then member j w (insert_member k v ms) else member k v (member j w ms))
    judged true e h = members_then (swap (precedes-apart j k e)) (member_alike same h)
    judged false e h = members_same (member k v (member j w ms))

mutual
  unfolding canonicalize_value

  canonicalize_value-Alike : (v : WireJson) → Alike v (canonicalize_value v)
  canonicalize_value-Alike null = same
  canonicalize_value-Alike (boolean b) = same
  canonicalize_value-Alike (string t) = same
  canonicalize_value-Alike (number l) = same
  canonicalize_value-Alike (array xs) = items_alike (canonicalize_items_lem xs)
  canonicalize_value-Alike (object ms) = members_alike (canonicalize_object_lem ms)

  canonicalize_items_lem : (xs : Items) → AlikeItems xs (canonicalize_items xs)
  canonicalize_items_lem no_items = no_items_alike
  canonicalize_items_lem (item v xs) =
      item_alike (canonicalize_value-Alike v) (canonicalize_items_lem xs)

  canonicalize_object_lem : (ms : Members) → AlikeMembers ms (canonicalize_object ms)
  canonicalize_object_lem no_members = no_members_alike
  canonicalize_object_lem (member k v ms) =
      members_then (member_alike (canonicalize_value-Alike v) (canonicalize_object_lem ms))
        (insert-AlikeMembers k (canonicalize_value v) (canonicalize_object ms))

-- Two values have one canonical form exactly if they differ only in the order of members with
-- different keys, at any depth.
pub canonicalize_value_iff :
    (v w : WireJson) → (canonicalize_value v ≡ canonicalize_value w) ↔ Alike v w
canonicalize_value_iff v w = (
  (λ e. via (subst (Alike v) e (canonicalize_value-Alike v)) (back (canonicalize_value-Alike w))),
  canonicalize-Alike,
)
