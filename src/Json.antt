-- ===== src/Json.antt =====
-- The values that `JSON.parse` returns, and the tests that apps/web/src/lib makes of them.
-- `JSON.parse` and `JSON.stringify` themselves belong to the runtime: where the program calls them
-- they are parameters. Numbers are exact: a fraction over a positive denominator, with its sign.
use relaydot.Prelude.{
  ℕ, suc, ltb, ◌*◌, ◌/◌, ◌%◌, String, Bool, true, false, ◌&&◌, not, Option, none, some, ◌==◌, ◌=ˢ◌,
  if◌then◌else◌,
}

-- `negative` and `numerator / (below + 1)`; `infinite` is what `JSON.parse` makes of `1e999`.
pub data Number : Type 0 where
  ratio : Bool → ℕ → ℕ → Number
  infinite : Bool → Number

mutual
  pub data Json : Type 0 where
    null : Json
    bool : Bool → Json
    num : Number → Json
    str : String → Json
    arr : Items → Json
    obj : Fields → Json

  pub data Items : Type 0 where
    nil : Items
    cons : Json → Items → Items

  pub data Fields : Type 0 where
    end : Fields
    field : String → Json → Fields → Fields

-- An object after `isObject`: its fields.
abbrev pub Row : Type 0
Row = Fields

-- `row.key`, with `none` for `undefined`. `JSON.parse` keeps the last of two equal keys.
abbrev pub get : String → Fields → Option Json
get k end = none
get k (field j v fs) = elim (get k fs) [ some w ↦ some w | none ↦ if j =ˢ k then some v else none ]

-- `isObject`, with the object that the test narrows to.
abbrev pub as_object : Option Json → Option Fields
as_object (some (obj fs)) = some fs
as_object _ = none

-- `typeof value === "string"`, with the text.
abbrev pub as_string : Option Json → Option String
as_string (some (str s)) = some s
as_string _ = none

-- `typeof value === "string" && value.length > 0`.
abbrev pub as_text : Option Json → Option String
as_text (some (str s)) = if s =ˢ "" then none else some s
as_text _ = none

-- `a ?? b`: `null` and `undefined` give way.
abbrev pub or_nullish : Option Json → Option Json → Option Json
or_nullish none b = b
or_nullish (some null) b = b
or_nullish (some v) b = some v

abbrev pub is_nullish : Option Json → Bool
is_nullish none = true
is_nullish (some null) = true
is_nullish (some v) = false

-- A nonnegative integer, as a JSON number.
abbrev pub int : ℕ → Json
int n = num (ratio false n 0)

-- `Number.isInteger(value) && value >= 0`, with the integer.
abbrev pub as_nonnegative : Number → Option ℕ
as_nonnegative (infinite s) = none
as_nonnegative (ratio s n d) =
    if n % suc d == 0 then (if s && not (n == 0) then none else some (n / suc d)) else none

-- `n > limit`.
abbrev pub exceeds : ℕ → Number → Bool
exceeds n (infinite negative) = negative
exceeds n (ratio negative m below) =
    if negative && not (m == 0) then true else ltb m (n * suc below)

-- The numbers that `Number.isFinite` accepts.
abbrev pub is_finite : Number → Bool
is_finite (infinite negative) = false
is_finite (ratio negative m below) = true
