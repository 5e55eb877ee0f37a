-- ===== src/Transcripts/Tests.antt =====
-- The theorems on the parsers at a row of each history.
use relaydot.Prelude.{
  split_on, ◌+◌, ◌=ˢ◌, if◌then◌else◌, ◌≡◌, refl, String, Bool, true, Option, none, some, [], ◌∷◌,
  All, ℤ, pos,
}
use relaydot.Json.{Json, str, obj, end, field, int, Row}
use relaydot.Transcripts.Codex.{parse_codex, token_usage}
use relaydot.Transcripts.Claude.{parse_claude}
use relaydot.Transcripts.Accounting.{counted}
use relaydot.Transcripts.Jsonl.{read_jsonl, written, session_id_from_path, parse_by_path}
use relaydot.Transcripts.Histories.{parse_by_path-count}
use relaydot.Transcripts.{ParseReport}
use relaydot.Transcripts.Counters.{
  IsMetered, IsSubset, parse_codex-IsMetered, parse_claude-IsSubset,
}

abbrev sha256 : String → String
sha256 s = s

abbrev parse_date : String → Option ℤ
parse_date s = none

abbrev stringify_event : Row → Json → String
stringify_event row timestamp = "event"

abbrev not_after : String → String → Bool
not_after a b = true

abbrev usage : Row
usage = field "input_tokens" (int 100) (
    field "cached_input_tokens" (int 40)
      (field "output_tokens" (int 30) (field "reasoning_output_tokens" (int 10) end)))

abbrev codex_line : Row
codex_line =
    field "payload"
      (obj (
        field "type" (str "token_count")
          (field "info" (obj (field "last_token_usage" (obj usage) end)) end)))
      end

abbrev claude_line : Row
claude_line =
    field "message"
      (obj
        (field "role" (str "assistant") (field "id" (str "msg1") (field "usage" (obj usage) end))))
      end

-- The row is a token count.
abbrev IsTokenCount : Row → Type 0
IsTokenCount row = (u : Row × Row) × (token_usage row ≡ some u)

parse_codex-IsMetered_example :
    All
      (IsMetered IsTokenCount)
      (parse_codex sha256 parse_date stringify_event "s" (pos 0) (codex_line ∷ [])).facts
parse_codex-IsMetered_example =
    parse_codex-IsMetered sha256 parse_date stringify_event "s" (pos 0) IsTokenCount
      (codex_line ∷ []) ((_, refl), tt)

parse_claude-IsSubset_example :
    All IsSubset (parse_claude sha256 parse_date not_after "s" (pos 0) (claude_line ∷ [])).facts
parse_claude-IsSubset_example =
    parse_claude-IsSubset sha256 parse_date not_after "s" (pos 0) (claude_line ∷ [])

-- A parser of JSON that knows one row.
abbrev parse : String → Option Json
parse text = if text =ˢ "row" then some (obj codex_line) else none

session_name : session_id_from_path "codex/sessions/2026/rollout-7.jsonl" ≡ "rollout-7"
unfolding session_id_from_path
session_name = refl

abbrev history : String
history = "row\n \nro\nrow"

abbrev parse_history : String → Option ParseReport
parse_history path =
    parse_by_path parse sha256 parse_date not_after stringify_event path history (pos 0)

abbrev report : ParseReport
report = parse_codex sha256 parse_date stringify_event "a" (pos 0) (codex_line ∷ codex_line ∷ [])

history_report : parse_history "codex/sessions/a.jsonl" ≡ some report
unfolding parse_by_path read_jsonl session_id_from_path
history_report = refl

parse_by_path-count_example :
    (counted report ≡ report.considered)
    × (report.considered + (read_jsonl parse history).1 ≡ written (split_on b'\n' history))
parse_by_path-count_example =
    parse_by_path-count parse sha256 parse_date not_after stringify_event "codex/sessions/a.jsonl"
      history (pos 0) history_report

two_lines : written (split_on 10 "row\n \nro") ≡ 2
two_lines = refl
