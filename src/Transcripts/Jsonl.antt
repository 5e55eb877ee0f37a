-- ===== src/Transcripts/Jsonl.antt =====
-- apps/web/src/lib/usage-parse.ts and ingest.ts: the split of a history into rows, and the choice of
-- its parser by its path. `parse` is `JSON.parse`, `none` where it throws.
use relaydot.Prelude.{
  ℕ, suc, ◌+◌, String, Bool, false, ◌||◌, Option, none, some, List, [], ◌∷◌, ◌=ˢ◌, if◌then◌else◌, ℤ,
  length, arith, trim, split_on, ends_with, strip_suffix, last_or, starts_with, ◌≡◌, refl, is_some,
}
use relaydot.Json.{Json, obj, Row}
use relaydot.Transcripts.{ParseReport}
use relaydot.Transcripts.Claude.{parse_claude}
use relaydot.Transcripts.Codex.{parse_codex}

abbrev or_unknown : String → String
or_unknown name = if name =ˢ "" then "unknown" else name

unfoldable pub session_id_from_path : String → String
session_id_from_path path = or_unknown (strip_suffix (last_or path (split_on 47 path)) ".jsonl")

unfoldable pub is_history_path : String → Bool
is_history_path path =
    if ends_with path ".jsonl"
    then starts_with path "claude/projects/" || starts_with path "codex/sessions/"
    else false

-- The rows, and the lines that were skipped.
abbrev pub Lines : Type 0
Lines = List Row × ℕ

-- A line of the loop, after `trim`: an object is a row.
abbrev pub add_line : Option Json → Lines → Lines
add_line (some (obj row)) (rows, skipped) = (row ∷ rows, skipped)
add_line _ (rows, skipped) = (rows, skipped + 1)

module _ (parse : String → Option Json) where
  pub read_lines : List String → Lines
  read_lines [] = ([], 0)
  read_lines (line ∷ lines) =
      let rest = read_lines lines in
      if trim line =ˢ "" then rest else add_line (parse (trim line)) rest

  unfoldable pub read_jsonl : String → Lines
  unfolding read_lines
  read_jsonl text = read_lines (split_on 10 text)

module _ (parse : String → Option Json) (sha256 : String → String) (parse_date : String → Option ℤ)
    (not_after : String → String → Bool) (stringify_event : Row → Json → String) where
  abbrev parse_rows : String → String → ℤ → List Row → Option ParseReport
  parse_rows path session fallback_time rows =
      if starts_with path "claude/projects/"
      then some (parse_claude sha256 parse_date not_after session fallback_time rows)
      else if starts_with path "codex/sessions/"
      then some (parse_codex sha256 parse_date stringify_event session fallback_time rows)
      else none

  unfoldable pub parse_by_path : String → String → ℤ → Option ParseReport
  parse_by_path path text fallback_time =
      if ends_with path ".jsonl"
      then parse_rows path (session_id_from_path path) fallback_time (read_jsonl parse text).0
      else none

  -- A history has a parser exactly when the ingest takes its path for one.
  pub parse_by_path-answers :
      (path text : String) (fallback_time : ℤ)
      → is_some (parse_by_path path text fallback_time) ≡ is_history_path path
  unfolding parse_by_path is_history_path
  parse_by_path-answers path text fallback_time = ground arith

-- The lines that hold more than white space.
abbrev pub written : List String → ℕ
written [] = 0
written (line ∷ lines) = if trim line =ˢ "" then written lines else suc (written lines)

add_line-count :
    (value : Option Json) (rest : Lines)
    → length (add_line value rest).0 + (add_line value rest).1 ≡ suc (length rest.0 + rest.1)
add_line-count value (rows, skipped) = ground arith

read_lines-count :
    (parse : String → Option Json) (lines : List String)
    → length (read_lines parse lines).0 + (read_lines parse lines).1 ≡ written lines
unfolding read_lines
read_lines-count parse [] = refl
read_lines-count parse (line ∷ lines) = ground (
  arith,
  read_lines-count parse lines,
  add_line-count (parse (trim line)) (read_lines parse lines),
)

-- Every line of a history that is not blank is a row or is counted as skipped, whatever the parser of
-- JSON does.
pub read_jsonl-count :
    (parse : String → Option Json) (text : String)
    → length (read_jsonl parse text).0 + (read_jsonl parse text).1 ≡ written (split_on 10 text)
unfolding read_jsonl
read_jsonl-count parse text = read_lines-count parse (split_on 10 text)
