-- ===== src/Yaml/Pieces.antt =====
-- apps/web/src/lib/yaml-lite.ts: a printed scalar, a printed key and a printed item are read back.
use relaydot.Prelude.{ℕ, String, true, false, ◌≡◌, refl, ◌≢◌, none, some, ◌=ˢ◌, trim, trim_end}
use relaydot.Json.{Number, Json, null, bool, num, str, arr, obj}
use relaydot.Yaml.{done}
use relaydot.Yaml.Scalars.{plain, find_key_end, scalar, key_of, split_key, has_key}
use relaydot.Yaml.Blocks.{item_of}
use relaydot.Yaml.Printer.{quote_onto, scalar_text, space_before, field_text}
use relaydot.Yaml.Quoting.{
  unquote-quote_onto, find_key_end-escape_onto, find_key_end-unclosed, head-ne, ne-false,
  cons-ne-empty, IsTrimmed, cons-IsTrimmed, escape_onto-IsTrimmed,
}

quote-IsTrimmed : IsTrimmed "\""
quote-IsTrimmed = record { ends = refl; not_empty = refl }

pub quote_onto-IsTrimmed :
    (s rest : String) → IsTrimmed (String.◌∷◌ "\"" rest) → IsTrimmed (quote_onto s rest)
unfolding quote_onto
quote_onto-IsTrimmed s rest h = cons-IsTrimmed "\"" _ (escape_onto-IsTrimmed _ h s)

trim-quote_onto :
    (s rest : String)
    → IsTrimmed (String.◌∷◌ "\"" rest)
    → trim (quote_onto s rest) ≡ quote_onto s rest
unfolding quote_onto
trim-quote_onto s rest h = (quote_onto-IsTrimmed s rest h).ends

pub trim-scalar_text : (v : Json) → trim (scalar_text v) ≡ scalar_text v
unfolding scalar_text
trim-scalar_text null = refl
trim-scalar_text (bool true) = refl
trim-scalar_text (bool false) = refl
trim-scalar_text (str s) = trim-quote_onto s "" quote-IsTrimmed
trim-scalar_text _ = refl

trim-space_before : (t : String) → trim t ≡ t → trim (space_before t) ≡ t
trim-space_before String.[] h = refl
trim-space_before (String.◌∷◌ c s) h = h

find_key_end-colon :
    (t : String) → find_key_end plain (String.◌∷◌ ":" (space_before t)) ≡ some ("", space_before t)
unfolding find_key_end
find_key_end-colon String.[] = refl
find_key_end-colon (String.◌∷◌ c s) = refl

find_key_end-quote_onto :
    (s t : String)
    → find_key_end plain (quote_onto s (String.◌∷◌ ":" (space_before t)))
      ≡ some (quote_onto s "", space_before t)
unfolding find_key_end quote_onto
find_key_end-quote_onto s t = rw (find_key_end-escape_onto _ _ s (find_key_end-colon t))

module _ (quoted : String → String) where
  key_of-quote_onto : (s : String) (line : ℕ) → key_of (quote_onto s "") line ≡ done s
  unfolding quote_onto
  key_of-quote_onto s line = unquote-quote_onto s line

  -- A printed field is split into its key and the text of its value.
  pub split_key-field_text :
      (key : String) (v : Json) (line : ℕ)
      → key ≢ ""
      → split_key quoted (field_text key v) line ≡ done (key, scalar_text v)
  unfolding split_key field_text
  split_key-field_text key v line ne = rw (
    find_key_end-quote_onto key (scalar_text v),
    trim-quote_onto key "" quote-IsTrimmed,
    key_of-quote_onto key line,
    ne-false key "" ne,
    trim-space_before (scalar_text v) (trim-scalar_text v),
  )

  pub has_key-field_text :
      (key : String) (v : Json) → key ≢ "" → has_key quoted (field_text key v) ≡ true
  unfolding has_key
  has_key-field_text key v ne = rw (split_key-field_text key v 0 ne)

  pub has_key-scalar_text : (v : Json) → has_key quoted (scalar_text v) ≡ false
  unfolding has_key scalar_text quote_onto split_key
  has_key-scalar_text null = refl
  has_key-scalar_text (bool true) = refl
  has_key-scalar_text (bool false) = refl
  has_key-scalar_text (str s) = rw find_key_end-unclosed
  has_key-scalar_text _ = refl

abbrev pub IsScalar : Json → Type 0
IsScalar (num n) = ⊥
IsScalar (arr items) = ⊥
IsScalar (obj fields) = ⊥
IsScalar _ = Unit

pub scalar-scalar_text :
    (float : String → Number) (v : Json) (line : ℕ)
    → IsScalar v
    → scalar float (scalar_text v) line ≡ done v
unfolding scalar scalar_text quote_onto
scalar-scalar_text float null line h = refl
scalar-scalar_text float (bool true) line h = refl
scalar-scalar_text float (bool false) line h = refl
scalar-scalar_text float (str s) line h = rw (
  trim-quote_onto s "" quote-IsTrimmed,
  head-ne (quote_onto s "") "~" refl,
  head-ne (quote_onto s "") "null" refl,
  unquote-quote_onto s line,
)
scalar-scalar_text float (num n) line h = absurd h
scalar-scalar_text float (arr items) line h = absurd h
scalar-scalar_text float (obj fields) line h = absurd h

item_of-quote : (s : String) → item_of (String.◌∷◌ "\"" s) ≡ none
item_of-quote String.[] = refl
item_of-quote (String.◌∷◌ c s) = refl

pub item_of-field_text : (key : String) (v : Json) → item_of (field_text key v) ≡ none
unfolding field_text quote_onto
item_of-field_text key v = item_of-quote _

pub scalar_text-ne : (v : Json) → IsScalar v → (scalar_text v =ˢ "") ≡ false
unfolding scalar_text quote_onto
scalar_text-ne null h = refl
scalar_text-ne (bool true) h = refl
scalar_text-ne (bool false) h = refl
scalar_text-ne (str s) h = cons-ne-empty _ _
scalar_text-ne (num n) h = absurd h
scalar_text-ne (arr items) h = absurd h
scalar_text-ne (obj fields) h = absurd h

trim_end-scalar_text : (v : Json) → trim_end (scalar_text v) ≡ scalar_text v
unfolding scalar_text
trim_end-scalar_text null = refl
trim_end-scalar_text (bool true) = refl
trim_end-scalar_text (bool false) = refl
trim_end-scalar_text (str s) = (quote_onto-IsTrimmed s "" quote-IsTrimmed).ends
trim_end-scalar_text _ = refl

colon-IsTrimmed : (t : String) → trim_end t ≡ t → IsTrimmed (String.◌∷◌ ":" (space_before t))
colon-IsTrimmed String.[] h = record { ends = refl; not_empty = refl }
colon-IsTrimmed (String.◌∷◌ c s) h =
    cons-IsTrimmed ":" _ (cons-IsTrimmed " " _ (record { ends = h; not_empty = cons-ne-empty c s }))

pub field_text-IsTrimmed : (key : String) (v : Json) → IsTrimmed (field_text key v)
unfolding field_text
field_text-IsTrimmed key v =
    quote_onto-IsTrimmed key _
      (cons-IsTrimmed "\"" _ (colon-IsTrimmed (scalar_text v) (trim_end-scalar_text v)))

pub trim-field_text : (key : String) (v : Json) → trim (field_text key v) ≡ field_text key v
unfolding field_text
trim-field_text key v =
    trim-quote_onto key _
      (cons-IsTrimmed "\"" _ (colon-IsTrimmed (scalar_text v) (trim_end-scalar_text v)))

-- The text of an item behind its dash.
abbrev pub dashed : String → String
dashed text = String.◌∷◌ "-" (String.◌∷◌ " " text)

pub field_text-ne : (key : String) (v : Json) → (field_text key v =ˢ "") ≡ false
field_text-ne key v = (field_text-IsTrimmed key v).not_empty
