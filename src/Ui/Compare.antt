-- ===== src/Ui/Compare.antt =====
-- server/ui/src/lib/timeline-filter.ts: how numbers and texts are compared with those of a query.
use Prim.Native.Nat.{◌/◌, ◌%◌}
use farfield.Base.{
  ℕ, ◌^◌, ◌==◌, leb, ltb, Bool, true, false, not, ◌&&◌, ◌||◌, List, [], ◌∷◌, Option, none, some,
  Text, text, text_eq, includes, is_truthy, is_present, trim, is_space, all, any, get_or,
  if◌then◌else◌,
}
use farfield.Sdk.Types.{Number}
use farfield.Sdk.Json.{is_finite}
use farfield.Integrations.Payload.{Json, is_nan}
use farfield.Ui.History.{Engine}
use farfield.Ui.Filter.{ComparisonOperator, contains, eq, gt, gte, lt, lte, is_in_line}

-- What a filter asks of the engine: `Number` of digits and points, a product of a double and a
-- whole number, the difference of two times, what the flag i of a RegExp makes of a unit, and
-- `JSON.stringify`.
pub record Matching : Type 0 where
  pub engine : Engine
  pub parse_number : Text → Number
  pub times : Number → ℕ → Number
  pub difference : Option ℕ → Option ℕ → Number
  pub canonical : ℕ → ℕ
  pub stringify : Json → Text

abbrev magnitude : Number → ℕ
magnitude n = n.bits % 2 ^ 63

abbrev is_negative : Number → Bool
is_negative n = n.bits / 2 ^ 63 == 1

-- `a < b` of doubles.
unfoldable pub number_lt : Number → Number → Bool
number_lt a b =
    if is_nan a || is_nan b || (magnitude a == 0 && magnitude b == 0)
    then false
    else if is_negative a
    then (if is_negative b then ltb (magnitude b) (magnitude a) else true)
    else (if is_negative b then false else ltb (magnitude a) (magnitude b))

-- `a === b` of doubles.
unfoldable pub number_eq : Number → Number → Bool
number_eq a b =
    not (is_nan a) && not (is_nan b) && (a.bits == b.bits || (magnitude a == 0 && magnitude b == 0))

-- `compareNumber`
unfoldable pub compare_number : Number → ComparisonOperator → Number → Bool
compare_number actual operator expected =
    if not (is_finite expected) then false else compared operator
  where
    compared : ComparisonOperator → Bool
    compared gt = number_lt expected actual
    compared gte = number_lt expected actual || number_eq actual expected
    compared lt = number_lt actual expected
    compared lte = number_lt actual expected || number_eq actual expected
    compared eq = number_eq actual expected
    compared contains = number_eq actual expected

abbrev is_digit_or_point : ℕ → Bool
is_digit_or_point c = (leb b'0' c && leb c b'9') || c == b'.'

abbrev is_lower : ℕ → Bool
is_lower c = leb b'a' c && leb c b'z'

-- The longest beginning of units that pass a test, and the rest.
unfoldable pub span_text : (ℕ → Bool) → Text → Text × Text
span_text p [] = ([], [])
span_text p (c ∷ s) =
    let (taken, rest) = span_text p s in if p c then (c ∷ taken, rest) else ([], c ∷ s)

-- The match of `/^([\d.]+)\s*([a-z]*)$/`: the digits and the unit.
unfoldable pub split_amount : Text → Option (Text × Text)
split_amount s =
    let (digits, rest) = span_text is_digit_or_point s in
    let (spaces, unit) = span_text is_space rest in
    if is_truthy digits && all is_lower unit then some (digits, unit) else none

-- The multiplier of a unit in a field.
unfoldable pub multiplier : Text → Text → ℕ
multiplier field unit =
    if text_eq field (text "offset")
    then (if text_eq unit (text "h")
        then 3600000
        else if text_eq unit (text "m") || text_eq unit (text "min")
        then 60000
        else if text_eq unit (text "s")
        then 1000
        else 1)
    else if text_eq field (text "size")
    then (if text_eq unit (text "mb")
        then 1048576
        else if text_eq unit (text "kb") || text_eq unit (text "k")
        then 1024
        else 1)
    else if text_eq field (text "tokens")
    then (if text_eq unit (text "m") then 1000000 else if text_eq unit (text "k") then 1000 else 1)
    else 1

abbrev nan : Number
nan = record { bits = 0x7ff8000000000000 }

-- `.*` and what is to match behind it.
unfoldable pub match_star : (Text → Bool) → Text → Bool
match_star rest [] = rest []
match_star rest (c ∷ s) = rest (c ∷ s) || (is_in_line c && match_star rest s)

unfoldable pub split_bar : Text → List Text
split_bar [] = [] ∷ []
split_bar (c ∷ s) = if c == b'|' then [] ∷ split_bar s else add_unit c (split_bar s)
  where
    add_unit : ℕ → List Text → List Text
    add_unit c [] = (c ∷ []) ∷ []
    add_unit c (part ∷ parts) = (c ∷ part) ∷ parts

module _ (matching : Matching) where
  open matching use {engine, parse_number, times, canonical}

  -- `numericValue`; a product with 1 is the amount itself.
  unfoldable pub numeric_value : Text → Text → Number
  numeric_value value field = elim (split_amount (engine.lower (trim value))) [
    | none ↦ nan
    | some (digits, unit) ↦ times (parse_number digits) (multiplier field unit)
  ]

  -- `new RegExp("^" + pattern + "$", "i").test(actual)`, for the target whose stars stand for `.*`
  -- and whose other units stand for themselves.
  unfoldable pub match_pattern : Text → Text → Bool
  match_pattern [] s = not (is_truthy s)
  match_pattern (c ∷ target) s =
      if c == b'*' then match_star (match_pattern target) s else match_unit (match_pattern target) s
    where
      match_unit : (Text → Bool) → Text → Bool
      match_unit rest [] = false
      match_unit rest (d ∷ s) = canonical d == canonical c && rest s

  -- `compareText` of a text that is there, behind its test for bars.
  unfoldable pub compare_whole : Text → Text → ComparisonOperator → Bool
  compare_whole actual target operator =
      if is_eq operator
      then text_eq (engine.lower actual) target
      else if includes target (text "*")
      then match_pattern target actual
      else includes (engine.lower actual) target
    where
      is_eq : ComparisonOperator → Bool
      is_eq eq = true
      is_eq _ = false

  -- `compareText`; a candidate has no bar, also in lower case.
  unfoldable pub compare_text : Option Text → Text → ComparisonOperator → Bool
  compare_text actual expected operator =
      let target = engine.lower expected in
      if not (is_present actual)
      then false
      else if includes target (text "|") && is_contains operator
      then any (λ candidate. compare_whole (get_or actual []) (engine.lower candidate) contains)
          (split_bar target)
      else compare_whole (get_or actual []) target operator
    where
      is_contains : ComparisonOperator → Bool
      is_contains contains = true
      is_contains _ = false
