-- ===== src/WireJson/StringTrip.antt =====
-- A JSON string written by src/serialization/wire_json.ts is read back unit by unit.
use ghc_gateway.Base.{
  ℕ, zero, suc, ◌+◌, ◌-◌, ◌*◌, ◌≤◌, ◌<◌, ◌≡◌, refl, true, List, [], ◌∷◌, ◌++◌, Text, length,
  length-append, All, arith, append_assoc, append-nil,
}
use ghc_gateway.WireJson.Outcome.{ok, Bytes}
use ghc_gateway.WireJson.Utf8.{utf8_code_point}
use ghc_gateway.WireJson.Strings.{
  from_code_point, parse_units, code_points, is_high, is_low, escape_code_unit, write_code_point,
  write_code_points, write_json_string, parse_string,
}
use ghc_gateway.WireJson.Characters.{IsPoint, parse_units-write_code_point}

-- A code unit is a 16-bit number.
abbrev pub IsUnit : ℕ → Type 0
IsUnit unit = unit < 0x10000

units_of : List ℕ → Text
units_of [] = []
units_of (point ∷ points) = from_code_point point ++ units_of points

parse_units-write_code_points :
    (points : List ℕ) (fuel : ℕ) (acc : Text) (rest : Bytes)
    → All IsPoint points
    → length points < fuel
    → parse_units fuel acc (write_code_points points ++ 0x22 ∷ rest)
      ≡ ok (acc ++ units_of points, rest)
unfolding units_of write_code_points
parse_units-write_code_points points zero acc rest h f = absurd (omega arith)
parse_units-write_code_points [] (suc fuel) acc rest h f = unfold parse_units in rw append-nil
parse_units-write_code_points (point ∷ points) (suc fuel) acc rest h f =
    rw
      (
        append_assoc (write_code_point point),
        parse_units-write_code_point fuel point acc (write_code_points points ++ 0x22 ∷ rest) h.0,
        parse_units-write_code_points points fuel (acc ++ from_code_point point) rest h.1
            (omega arith),
      )
      (rw append_assoc)

from_code_point_pair :
    (a b : ℕ)
    → is_high a ≡ true
    → is_low b ≡ true
    → from_code_point (0x10000 + (a - 0xd800) * 1024 + (b - 0xdc00)) ≡ a ∷ b ∷ []
unfolding from_code_point is_high is_low
from_code_point_pair a b ha hb = ground arith

from_code_point_single : (a : ℕ) → IsUnit a → from_code_point a ≡ a ∷ []
unfolding from_code_point
from_code_point_single a h = ground arith

units_of-code_points : (t : Text) → All IsUnit t → units_of (code_points t) ≡ t
unfolding units_of code_points
units_of-code_points [] h = refl
units_of-code_points (a ∷ []) h = rw (from_code_point_single a h.0)
units_of-code_points (a ∷ b ∷ t) h = ground (
  arith,
  from_code_point_pair a b,
  from_code_point_single a,
  units_of-code_points t h.1.1,
  units_of-code_points (b ∷ t) h.1,
)

code_points-IsPoint : (t : Text) → All IsUnit t → All IsPoint (code_points t)
unfolding code_points is_high is_low
code_points-IsPoint [] h = tt
code_points-IsPoint (a ∷ []) h = omega arith
code_points-IsPoint (a ∷ b ∷ t) h =
    ground (arith, code_points-IsPoint t h.1.1, code_points-IsPoint (b ∷ t) h.1)

length-write_code_point : (p : ℕ) → 0 < length (write_code_point p)
unfolding write_code_point utf8_code_point escape_code_unit
length-write_code_point p = ground arith

length-write_code_points : (points : List ℕ) → length points ≤ length (write_code_points points)
unfolding write_code_points
length-write_code_points [] = omega arith
length-write_code_points (p ∷ points) = omega (
  arith,
  length-write_code_point p,
  length-write_code_points points,
  length-append (write_code_point p) (write_code_points points),
)

-- The parser reads a written string off the front of any input.
pub parse_string-write_json_string :
    (value : Text) (rest : Bytes)
    → All IsUnit value
    → parse_string (write_json_string value ++ rest) ≡ ok (value, rest)
unfolding parse_string write_json_string
parse_string-write_json_string value rest h =
    let written = write_code_points (code_points value) in
    rw (append_assoc written (0x22 ∷ []) rest) (
      rw
        (parse_units-write_code_points (code_points value) (suc (length (written ++ 0x22 ∷ rest)))
          [] rest (code_points-IsPoint value h)
          (omega (
            arith,
            length-write_code_points (code_points value),
            length-append written (0x22 ∷ rest),
          )))
        (rw (units_of-code_points value h)))
