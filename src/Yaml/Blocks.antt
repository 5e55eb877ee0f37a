-- ===== src/Yaml/Blocks.antt =====
-- apps/web/src/lib/yaml-lite.ts: the parser of blocks. The cursor is the list of the lines that are
-- left, so that `splice` puts a line in front. A loop takes a unit of fuel for each of its rounds.
use Prim.Native.Char.{code}
use relaydot.Prelude.{
  ℕ, zero, suc, ◌+◌, String, Bool, ◌||◌, ◌&&◌, Option, none, some, List, [], ◌∷◌, leb, ◌==◌, ◌=ˢ◌,
  ◌+ˢ◌, if◌then◌else◌, is_some, trim,
}
use relaydot.Json.{Number, Json, null, arr, obj, Items, nil, cons, Fields, end, field, get}
use relaydot.Yaml.{Outcome, done, unfinished, fail, ◌>>=◌}
use relaydot.Yaml.Scalars.{scalar, split_key, has_key}
use relaydot.Yaml.Lines.{Line, scan}

-- `line.text === "-" || line.text.startsWith("- ")`, with the text of the item.
abbrev pub item_of : String → Option String
item_of String.[] = none
item_of (String.◌∷◌ c String.[]) = if code c == b'-' then some "" else none
item_of (String.◌∷◌ c (String.◌∷◌ d s)) =
    if code c == b'-' && code d == b' ' then some (trim s) else none

abbrev pub append_field : Fields → String → Json → Fields
append_field end k v = field k v end
append_field (field j w fs) k v = field j w (append_field fs k v)

abbrev pub append_item : Items → Json → Items
append_item nil v = cons v nil
append_item (cons w vs) v = cons w (append_item vs v)

-- A parser of blocks at a column: what it reads, and the lines that it leaves.
abbrev pub Parser : Type 0 → Type 0
Parser A = ℕ → List Line → Outcome (A × List Line)

abbrev as_object : Fields × List Line → Outcome (Json × List Line)
as_object (fields, rest) = done (obj fields, rest)

abbrev as_array : Items × List Line → Outcome (Json × List Line)
as_array (items, rest) = done (arr items, rest)

-- `parseNode`, where there is a line: the first one says which loop reads the block.
abbrev pub parse_node :
    Parser Fields → Parser Items → ℕ → Line → List Line → Outcome (Json × List Line)
parse_node mapping sequence indent line rest =
    if is_some (item_of line.text)
    then (sequence indent (line ∷ rest) >>= as_array)
    else (mapping indent (line ∷ rest) >>= as_object)

abbrev pub parse_child : Parser Fields → Parser Items → Parser Json
parse_child mapping sequence indent [] = done (null, [])
parse_child mapping sequence indent (next ∷ rest) =
    if leb next.indent indent
    then done (null, next ∷ rest)
    else parse_node mapping sequence next.indent next rest

abbrev pub injected : ℕ → Line → String → Line
injected indent line rest = record { indent = indent + 2; text = rest; number = line.number }

abbrev pub characters : String → ℕ
characters String.[] = 0
characters (String.◌∷◌ c s) = suc (characters s)

-- The fuel: every round reads a line, or a dash and the space behind it.
abbrev pub size_of : List Line → ℕ
size_of [] = 0
size_of (line ∷ rest) = suc (characters line.text) + size_of rest

-- `key in mapping`
abbrev pub is_taken : (String → Bool) → String → Fields → Bool
is_taken is_inherited key fields = is_inherited key || is_some (get key fields)

module _ (float : String → Number) (quoted : String → String) (is_inherited : String → Bool) where
  -- What stands behind a key, or behind a dash with no key: a scalar, or a block on the next lines.
  abbrev pub value_of :
      Parser Fields → Parser Items → ℕ → Line → String → List Line → Outcome (Json × List Line)
  value_of mapping sequence indent line text rest =
      if text =ˢ ""
      then parse_child mapping sequence indent rest
      else (scalar float text line.number >>= λ v. done (v, rest))

  abbrev pub entry_of :
      Parser Fields
      → Parser Items
      → ℕ
      → Fields
      → Line
      → List Line
      → String × String
      → Outcome ((String × Json) × List Line)
  entry_of mapping sequence indent fields line rest (key, text) =
      if is_taken is_inherited key fields
      then fail ("duplicate mapping key: " +ˢ key) line.number
      else (value_of mapping sequence indent line text rest >>= λ (v, left). done ((key, v), left))

  -- The body of the loop of `parseMapping`, up to the assignment.
  abbrev pub mapping_entry :
      Parser Fields
      → Parser Items
      → ℕ
      → Fields
      → Line
      → List Line
      → Outcome ((String × Json) × List Line)
  mapping_entry mapping sequence indent fields line rest =
      if is_some (item_of line.text)
      then fail "sequence item where a mapping key was expected" line.number
      else (split_key quoted line.text line.number
          >>= entry_of mapping sequence indent fields line rest)

  -- The body of the loop of `parseSequence`, up to the push: `- key: value` opens a mapping, whose
  -- first line is put in at the column of the key.
  abbrev pub sequence_entry :
      Parser Fields → Parser Items → ℕ → Line → List Line → String → Outcome (Json × List Line)
  sequence_entry mapping sequence indent line rest text =
      if text =ˢ ""
      then parse_child mapping sequence indent rest
      else if has_key quoted text
      then (mapping (indent + 2) (injected indent line text ∷ rest) >>= as_object)
      else (scalar float text line.number >>= λ v. done (v, rest))

  -- The loops of `parseMapping` and `parseSequence` where there is a line, from what they have read;
  -- `mapping` and `sequence` are the loops themselves.
  unfoldable pub mapping_step :
      (Fields → Parser Fields)
      → (Items → Parser Items)
      → Fields
      → ℕ
      → Line
      → List Line
      → Outcome (Fields × List Line)
  mapping_step mapping sequence fields indent line rest =
      if line.indent == indent
      then (mapping_entry (mapping end) (sequence nil) indent fields line rest >>= λ (entry, left).
          mapping (append_field fields entry.0 entry.1) indent left)
      else done (fields, line ∷ rest)

  abbrev pub item_step :
      (Fields → Parser Fields)
      → (Items → Parser Items)
      → Items
      → ℕ
      → Line
      → List Line
      → Option String
      → Outcome (Items × List Line)
  item_step mapping sequence items indent line rest none = done (items, line ∷ rest)
  item_step mapping sequence items indent line rest (some text) =
      sequence_entry (mapping end) (sequence nil) indent line rest text >>= λ (v, left).
      sequence (append_item items v) indent left

  unfoldable pub sequence_step :
      (Fields → Parser Fields)
      → (Items → Parser Items)
      → Items
      → ℕ
      → Line
      → List Line
      → Outcome (Items × List Line)
  sequence_step mapping sequence items indent line rest =
      if line.indent == indent
      then item_step mapping sequence items indent line rest (item_of line.text)
      else done (items, line ∷ rest)

  unfoldable mutual
    pub parse_mapping : ℕ → Fields → Parser Fields
    parse_mapping zero fields indent lines = unfinished
    parse_mapping (suc f) fields indent [] = done (fields, [])
    parse_mapping (suc f) fields indent (line ∷ rest) =
        mapping_step (parse_mapping f) (parse_sequence f) fields indent line rest

    pub parse_sequence : ℕ → Items → Parser Items
    parse_sequence zero items indent lines = unfinished
    parse_sequence (suc f) items indent [] = done (items, [])
    parse_sequence (suc f) items indent (line ∷ rest) =
        sequence_step (parse_mapping f) (parse_sequence f) items indent line rest

  abbrev pub finished : Json × List Line → Outcome Json
  finished (v, []) = done v
  finished (v, line ∷ rest) = fail "inconsistent indentation" line.number

  unfoldable pub parse_lines : List Line → Outcome Json
  unfolding parse_mapping parse_sequence mapping_step sequence_step
  parse_lines [] = done null
  parse_lines (line ∷ rest) =
      let fuel = suc (size_of (line ∷ rest)) in
      parse_node (parse_mapping fuel end) (parse_sequence fuel nil) line.indent line rest
      >>= finished

  unfoldable pub parse_yaml : String → Outcome Json
  unfolding parse_lines scan
  parse_yaml source = scan source >>= parse_lines
