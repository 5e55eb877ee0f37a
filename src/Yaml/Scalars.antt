-- ===== src/Yaml/Scalars.antt =====
-- apps/web/src/lib/yaml-lite.ts: comments, quotes, scalars and keys. The loops over the characters of
-- a text are recursions on the text with the state of the quotes.
use Prim.Native.Char.{Char, code}
use relaydot.Prelude.{
  ℕ, String, Bool, true, false, ◌&&◌, ◌||◌, Option, none, some, [], ◌∷◌, leb, ◌==◌, ◌=ˢ◌, ◌+ˢ◌, ◌+◌,
  ◌*◌, ◌-◌, if◌then◌else◌, any, is_space, trim, trim_end,
}
use relaydot.Json.{Number, ratio, Json, null, bool, num, str}
use relaydot.Yaml.{Outcome, done, fail, ◌>>=◌}

-- `quote`, and `escaped` where the loop skips the character after a backslash in double quotes.
pub data Mode : Type 0 where
  plain : Mode
  within : ℕ → Mode
  escaped : Mode

abbrev pub is_quote : Char → Bool
is_quote c = code c == b'"' || code c == b'\''

-- The state after a character that does not end the loop.
unfoldable pub advance : Mode → Char → Mode
advance plain c = if is_quote c then within (code c) else plain
advance (within q) c =
    if code c == b'\\' && q == b'"' then escaped else if code c == q then plain else within q
advance escaped c = within b'"'

-- A `#` at the start or after white space, outside quotes.
abbrev pub is_comment : Mode → Bool → Char → Bool
is_comment plain after_space c = code c == b'#' && after_space
is_comment _ after_space c = false

unfoldable pub cut_comment : Mode → Bool → String → String
unfolding advance
cut_comment m after_space String.[] = ""
cut_comment m after_space (String.◌∷◌ c s) =
    let rest = cut_comment (advance m c) (is_space c) s in
    if is_comment m after_space c then "" else String.◌∷◌ c rest

unfoldable pub strip_comment : String → String
unfolding cut_comment
strip_comment text = trim_end (cut_comment plain true text)

abbrev pub put_back : Char → Option (String × Char) → Option (String × Char)
put_back c none = some ("", c)
put_back c (some (s, d)) = some (String.◌∷◌ c s, d)

-- All characters but the last one, and the last one.
abbrev pub split_last : String → Option (String × Char)
split_last String.[] = none
split_last (String.◌∷◌ c s) = put_back c (split_last s)

-- `body.replace(/''/g, "'")`: `second` says that a quote stands before, which a second one would join.
abbrev pub undouble : Bool → String → String
undouble second String.[] = ""
undouble second (String.◌∷◌ c s) =
    let dropped = undouble false s in
    let kept = String.◌∷◌ c (undouble (code c == b'\'') s) in
    if second && code c == b'\'' then dropped else kept

-- The letter of an escape stands for this character.
abbrev pub escape_of : Char → Option Char
escape_of c =
    let n = code c in
    if n == b'n'
    then some "\n"
    else if n == b'r'
    then some "\r"
    else if n == b't'
    then some "\t"
    else if n == b'"' || n == b'\\' || n == b'/'
    then some c
    else none

abbrev unescaped : Char → String → Option Char → String
unescaped c rest none = "\\" +ˢ String.◌∷◌ c rest
unescaped c rest (some d) = String.◌∷◌ d rest

-- `body.replace(/\\(["\\/nrt])/g, …)`: `pending` says that a backslash stands before.
abbrev pub unescape : Bool → String → String
unescape true String.[] = "\\"
unescape false String.[] = ""
unescape true (String.◌∷◌ c s) = unescaped c (unescape false s) (escape_of c)
unescape false (String.◌∷◌ c s) =
    let skipped = unescape true s in
    let kept = String.◌∷◌ c (unescape false s) in if code c == b'\\' then skipped else kept

abbrev pub unquote_body : Char → ℕ → Option (String × Char) → Outcome String
unquote_body quote line none = fail "unterminated quoted scalar" line
unquote_body quote line (some (body, last)) =
    if code last == code quote
    then done (if code quote == b'\'' then undouble false body else unescape false body)
    else fail "unterminated quoted scalar" line

-- `unquote` of the text that `quote` begins and `s` goes on with.
unfoldable pub unquote : Char → String → ℕ → Outcome String
unquote quote s line = unquote_body quote line (split_last s)

abbrev pub is_digit : Char → Bool
is_digit c = leb b'0' (code c) && leb (code c) b'9'

abbrev is_digits : String → Bool
is_digits String.[] = true
is_digits (String.◌∷◌ c s) = is_digit c && is_digits s

-- /^\d+$/
abbrev pub is_number : String → Bool
is_number String.[] = false
is_number (String.◌∷◌ c s) = is_digits (String.◌∷◌ c s)

abbrev is_sign : Char → Bool
is_sign c = code c == b'+' || code c == b'-'

-- /[+-]?/
abbrev pub after_sign : String → String
after_sign String.[] = ""
after_sign (String.◌∷◌ c s) = if is_sign c then s else String.◌∷◌ c s

abbrev after_digits : String → String
after_digits String.[] = ""
after_digits (String.◌∷◌ c s) =
    let rest = after_digits s in if is_digit c then rest else String.◌∷◌ c s

abbrev starts_with_digit : String → Bool
starts_with_digit String.[] = false
starts_with_digit (String.◌∷◌ c s) = is_digit c

-- /([eE][+-]?\d+)?$/
abbrev is_exponent : String → Bool
is_exponent String.[] = true
is_exponent (String.◌∷◌ c s) = (code c == b'e' || code c == b'E') && is_number (after_sign s)

-- /\.\d*…/ after whole digits, and /\.\d+…/ after none.
abbrev is_fraction : Bool → String → Bool
is_fraction has_whole String.[] = false
is_fraction has_whole (String.◌∷◌ c s) =
    code c == b'.' && (has_whole || starts_with_digit s) && is_exponent (after_digits s)

-- /^[+-]?(\d+\.\d*|\.\d+)([eE][+-]?\d+)?$/
pub is_float : String → Bool
is_float s =
    let unsigned = after_sign s in is_fraction (starts_with_digit unsigned) (after_digits unsigned)

abbrev digits_value : ℕ → String → ℕ
digits_value n String.[] = n
digits_value n (String.◌∷◌ c s) = digits_value (n * 10 + (code c - b'0')) s

abbrev is_minus : String → Bool
is_minus String.[] = false
is_minus (String.◌∷◌ c s) = code c == b'-'

-- `Number.parseInt(value, 10)`, exactly.
pub parse_int : String → Json
parse_int s = num (ratio (is_minus s) (digits_value 0 (after_sign s)) 0)

abbrev is_unsupported : Char → Bool
is_unsupported c = any (λ n. code c == n) (b'&' ∷ b'*' ∷ b'!' ∷ b'|' ∷ b'>' ∷ b'{' ∷ b'[' ∷ [])

module _ (float : String → Number) where
  -- A scalar that no first character decides.
  unfoldable pub plain_scalar : String → Json
  unfolding is_float parse_int
  plain_scalar value =
      if value =ˢ "true"
      then bool true
      else if value =ˢ "false"
      then bool false
      else if is_number (after_sign value)
      then parse_int value
      else if is_float value
      then num (float value)
      else str value

  -- A scalar that `c` begins.
  unfoldable pub scalar_from : Char → String → ℕ → Outcome Json
  unfolding plain_scalar unquote
  scalar_from c s line =
      if String.◌∷◌ c s =ˢ "~" || String.◌∷◌ c s =ˢ "null"
      then done null
      else if is_quote c
      then (unquote c s line >>= λ text. done (str text))
      else if is_unsupported c
      then fail ("unsupported YAML construct: " +ˢ String.◌∷◌ c "") line
      else done (plain_scalar (String.◌∷◌ c s))

  abbrev pub trimmed_scalar : String → ℕ → Outcome Json
  trimmed_scalar String.[] line = done null
  trimmed_scalar (String.◌∷◌ c s) line = scalar_from c s line

  unfoldable pub scalar : String → ℕ → Outcome Json
  unfolding scalar_from
  scalar raw line = trimmed_scalar (trim raw) line

abbrev ends_key : String → Bool
ends_key String.[] = true
ends_key (String.◌∷◌ c s) = is_space c

-- A colon outside quotes, with white space or nothing after it.
abbrev pub is_key_end : Mode → Char → String → Bool
is_key_end plain c s = code c == b':' && ends_key s
is_key_end _ c s = false

abbrev pub add_left : Char → Option (String × String) → Option (String × String)
add_left c none = none
add_left c (some (left, right)) = some (String.◌∷◌ c left, right)

-- The texts before and after that colon.
unfoldable pub find_key_end : Mode → String → Option (String × String)
unfolding advance
find_key_end m String.[] = none
find_key_end m (String.◌∷◌ c s) =
    let later = add_left c (find_key_end (advance m c) s) in
    if is_key_end m c s then some ("", s) else later

abbrev pub key_of : String → ℕ → Outcome String
key_of String.[] line = done ""
key_of (String.◌∷◌ c s) line = if is_quote c then unquote c s line else done (String.◌∷◌ c s)

abbrev pub named : String → ℕ → String → Outcome (String × String)
named rest line key =
    if key =ˢ "" then fail "mapping key must not be empty" line else done (key, trim rest)

module _ (quoted : String → String) where
  abbrev pub split_at : String → ℕ → Option (String × String) → Outcome (String × String)
  split_at text line none = fail ("expected 'key: value' but found " +ˢ quoted text) line
  split_at text line (some (raw, rest)) = key_of (trim raw) line >>= named rest line

  unfoldable pub split_key : String → ℕ → Outcome (String × String)
  unfolding find_key_end unquote
  split_key text line = split_at text line (find_key_end plain text)

  abbrev is_done : Outcome (String × String) → Bool
  is_done (done _) = true
  is_done _ = false

  unfoldable pub has_key : String → Bool
  unfolding split_key
  has_key text = is_done (split_key text 0)
