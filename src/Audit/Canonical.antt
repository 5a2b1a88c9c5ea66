-- ===== src/Audit/Canonical.antt =====
-- canonicalJson of packages/claims/src/api/audit.ts, over the JSON values that audit entries hold
-- (numbers are natural). JSON.stringify at a string and at a number, and the default order of
-- `sort()`, are written out; texts are sequences of code points.
use Prim.Native.Char.{Char, code}
use Prim.Native.String
use Prim.Native.String.{[], ◌∷◌}
use ar_io_solana_attestor.Prelude.{
  ℕ, zero, suc, ◌+◌, ◌-◌, ◌/◌, ◌%◌, String, ◌≡◌, refl, Bool, true, false, ltb, ◌==◌, if◌then◌else◌,
}

mutual
  pub data Json : Type 0 where
    null : Json
    boolean : Bool → Json
    number : ℕ → Json
    string : String → Json
    array : Items → Json
    object : Fields → Json

  pub data Items : Type 0 where
    nil : Items
    item : Json → Items → Items

  -- A field may be undefined, as an optional property that is not given.
  pub data Fields : Type 0 where
    end : Fields
    field : String → Json → Fields → Fields
    undefined_field : String → Fields → Fields

infixl 65 ◌+s◌
abbrev pub ◌+s◌ : String → String → String
s +s t = String.◌++◌ s t

unit_at : String → ℕ → String
unit_at [] i = ""
unit_at (c ∷ s) zero = c ∷ []
unit_at (c ∷ s) (suc i) = unit_at s i

unfoldable pub hex_unit : ℕ → String
unfolding unit_at
hex_unit d = unit_at "0123456789abcdef" d

-- The decimal digits of a number, on fuel; n + 1 rounds are more than it has digits.
decimal_loop : ℕ → ℕ → String → String
decimal_loop zero n acc = acc
decimal_loop (suc fuel) n acc =
    let acc' = hex_unit (n % 10) +s acc in
    let rest = decimal_loop fuel (n / 10) acc' in if ltb n 10 then acc' else rest

unfoldable pub decimal : ℕ → String
unfolding decimal_loop hex_unit
decimal n = decimal_loop (suc n) n ""

-- JSON.stringify at one character of a string.
quote_unit : Char → String
unfolding hex_unit
quote_unit c =
    let n = code c in
    if n == 34
    then "\\\""
    else if n == 92
    then "\\\\"
    else if n == 8
    then "\\b"
    else if n == 9
    then "\\t"
    else if n == 10
    then "\\n"
    else if n == 12
    then "\\f"
    else if n == 13
    then "\\r"
    else if ltb n 32
    then "\\u00" +s hex_unit (n / 16) +s hex_unit (n % 16)
    else c ∷ []

quote_units : String → String
unfolding quote_unit
quote_units [] = ""
quote_units (c ∷ s) = quote_unit c +s quote_units s

unfoldable pub quote : String → String
unfolding quote_units
quote s = "\"" +s quote_units s +s "\""

-- The first UTF-16 unit of a character.
abbrev lead_unit : ℕ → ℕ
lead_unit n = if ltb n 65_536 then n else 55_296 + (n - 65_536) / 1_024

-- The order of `sort()`, which compares UTF-16 units.
key_le : String → String → Bool
key_le [] t = true
key_le (c ∷ s) [] = false
key_le (c ∷ s) (d ∷ t) =
    let rest = key_le s t in
    if code c == code d
    then rest
    else if lead_unit (code c) == lead_unit (code d)
    then ltb (code c) (code d)
    else ltb (lead_unit (code c)) (lead_unit (code d))

-- The serialised fields, in the order of their keys.
pub data Parts : Type 0 where
  none_left : Parts
  part : (key : String) (text : String) → Parts → Parts

insert_part : String → String → Parts → Parts
insert_part key text none_left = part key text none_left
insert_part key text (part k t rest) =
    if key_le key k then part key text (part k t rest) else part k t (insert_part key text rest)

join_parts : Parts → String
join_parts none_left = ""
join_parts (part k t none_left) = t
join_parts (part k t rest) = t +s "," +s join_parts rest

unfoldable mutual
  unfolding decimal quote insert_part join_parts key_le

  pub canonical_json : Json → String
  canonical_json null = "null"
  canonical_json (boolean true) = "true"
  canonical_json (boolean false) = "false"
  canonical_json (number n) = decimal n
  canonical_json (string s) = quote s
  canonical_json (array items) = "[" +s canonical_items items +s "]"
  canonical_json (object fields) = "{" +s join_parts (sorted_parts fields) +s "}"

  pub canonical_items : Items → String
  canonical_items nil = ""
  canonical_items (item j nil) = canonical_json j
  canonical_items (item j rest) = canonical_json j +s "," +s canonical_items rest

  -- The defined fields as `key:value`, sorted by insertion.
  pub sorted_parts : Fields → Parts
  sorted_parts end = none_left
  sorted_parts (field k j rest) =
      insert_part k (quote k +s ":" +s canonical_json j) (sorted_parts rest)
  sorted_parts (undefined_field k rest) = sorted_parts rest

sorts_and_skips :
    canonical_json
      (object (field "b" (number 120) (undefined_field "c" (field "a" (string "x\"y") end))))
    ≡ "{\"a\":\"x\\\"y\",\"b\":120}"
unfolding canonical_json
sorts_and_skips = refl
