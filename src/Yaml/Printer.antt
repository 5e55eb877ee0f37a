-- ===== src/Yaml/Printer.antt =====
-- How a configuration is written so that apps/web/src/lib/yaml-lite.ts reads it back: block mappings and
-- sequences, each level two columns further in, and texts in double quotes. A mapping in a sequence
-- stands behind its dash.
use Prim.Native.Char.{Char, code}
use relaydot.Prelude.{
  ℕ, zero, suc, ◌+◌, String, Option, none, some, List, [], ◌∷◌, ◌==◌, if◌then◌else◌, true, false,
  ◌+ˢ◌, ◌≢◌,
}
use relaydot.Json.{Json, null, bool, num, str, arr, obj, Items, nil, cons, Fields, end, field}

-- The letter after the backslash, for a character that is not written as it is.
abbrev pub escape_letter : Char → Option Char
escape_letter c =
    let n = code c in
    if n == b'"'
    then some "\""
    else if n == b'\\'
    then some "\\"
    else if n == b'\n'
    then some "n"
    else if n == b'\r'
    then some "r"
    else if n == b'\t'
    then some "t"
    else none

abbrev pub write_char : Option Char → Char → String → String
write_char none c rest = String.◌∷◌ c rest
write_char (some letter) c rest = String.◌∷◌ "\\" (String.◌∷◌ letter rest)

-- The characters of a text between double quotes, and what follows them.
unfoldable pub escape_onto : String → String → String
escape_onto String.[] rest = rest
escape_onto (String.◌∷◌ c s) rest = write_char (escape_letter c) c (escape_onto s rest)

unfoldable pub quote_onto : String → String → String
unfolding escape_onto
quote_onto s rest = String.◌∷◌ "\"" (escape_onto s (String.◌∷◌ "\"" rest))

-- A scalar, and nothing for a block.
unfoldable pub scalar_text : Json → String
unfolding quote_onto
scalar_text null = "null"
scalar_text (bool true) = "true"
scalar_text (bool false) = "false"
scalar_text (str s) = quote_onto s ""
scalar_text _ = ""

abbrev pub space_before : String → String
space_before String.[] = ""
space_before (String.◌∷◌ c s) = String.◌∷◌ " " (String.◌∷◌ c s)

-- `"key":`, with the value behind it if it is a scalar.
unfoldable pub field_text : String → Json → String
unfolding scalar_text
field_text key v = quote_onto key (String.◌∷◌ ":" (space_before (scalar_text v)))

abbrev pub Row : Type 0
Row = ℕ × String

abbrev pub behind_dash : ℕ → List Row → List Row
behind_dash column [] = []
behind_dash column ((_, text) ∷ rows) = (column, String.◌∷◌ "-" (String.◌∷◌ " " text)) ∷ rows

-- The rows of a value at a column, and the rows after it.
unfoldable mutual
  pub block_onto : ℕ → Json → List Row → List Row
  block_onto column (arr items) rest = items_onto column items rest
  block_onto column (obj fields) rest = fields_onto column fields rest
  block_onto column _ rest = rest

  pub items_onto : ℕ → Items → List Row → List Row
  items_onto column nil rest = rest
  items_onto column (cons v vs) rest = item_onto column v (items_onto column vs rest)

  pub item_onto : ℕ → Json → List Row → List Row
  item_onto column (arr items) rest = (column, "-") ∷ items_onto (column + 2) items rest
  item_onto column (obj fields) rest = behind_dash column (fields_onto (column + 2) fields rest)
  item_onto column v rest = (column, String.◌∷◌ "-" (String.◌∷◌ " " (scalar_text v))) ∷ rest

  pub fields_onto : ℕ → Fields → List Row → List Row
  fields_onto column end rest = rest
  fields_onto column (field key v fs) rest =
      (column, field_text key v) ∷ block_onto (column + 2) v (fields_onto column fs rest)

abbrev pub indented : ℕ → String → String
indented zero text = text
indented (suc n) text = String.◌∷◌ " " (indented n text)

-- Every row ends with a line break.
unfoldable pub render : List Row → String
render [] = ""
render ((column, text) ∷ rows) = indented column text +ˢ String.◌∷◌ "\n" (render rows)

unfoldable mutual
  -- Values that can be written: no numbers, and no block is empty.
  pub IsWritable : Json → Type 0
  IsWritable (num n) = ⊥
  IsWritable (arr items) = (items ≢ nil) × AreWritable items
  IsWritable (obj fields) = (fields ≢ end) × HoldsWritable fields
  IsWritable _ = Unit

  pub AreWritable : Items → Type 0
  AreWritable nil = Unit
  AreWritable (cons v vs) = IsWritable v × AreWritable vs

  pub HoldsWritable : Fields → Type 0
  HoldsWritable end = Unit
  HoldsWritable (field k v fs) = IsWritable v × HoldsWritable fs

-- `print` writes a document, which is a mapping or a sequence.
unfoldable pub print : Json → String
unfolding render block_onto
print v = render (block_onto 0 v [])
