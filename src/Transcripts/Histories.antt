-- ===== src/Transcripts/Histories.antt =====
-- apps/web/src/lib/usage-parse.ts and ingest.ts: every line of a history file is accounted for, whichever
-- parser its path chooses.
use relaydot.Prelude.{
  ◌+◌, String, Bool, Option, some, List, ◌≡◌, ℤ, length, arith, Bool-cases, inl, inr, ends_with,
  starts_with, split_on,
}
use relaydot.Json.{Json, Row}
use relaydot.Transcripts.{ParseReport}
use relaydot.Transcripts.Accounting.{counted, parse_codex-count, parse_claude-count}
use relaydot.Transcripts.Jsonl.{
  read_jsonl, written, session_id_from_path, read_jsonl-count, parse_by_path,
}

-- The report of a parser speaks of all the rows.
abbrev Accounts : List Row → ParseReport → Type 0
Accounts rows r = (counted r ≡ r.considered) × (r.considered ≡ length rows)

accounted :
    (rows : List Row) (r r' : ParseReport) → some r' ≡ some r → Accounts rows r' → Accounts rows r
accounted rows r r' e h = ground arith

module _ (parse : String → Option Json) (sha256 : String → String) (parse_date : String → Option ℤ)
    (not_after : String → String → Bool) (stringify_event : Row → Json → String)
    (path text : String) (fallback_time : ℤ) where
  abbrev session : String
  session = session_id_from_path path

  parse_by_path-Accounts :
      {r : ParseReport}
      → parse_by_path parse sha256 parse_date not_after stringify_event path text fallback_time
        ≡ some r
      → Accounts (read_jsonl parse text).0 r
  unfolding parse_by_path
  parse_by_path-Accounts {r} e =
      let rows = (read_jsonl parse text).0 in
      elim (Bool-cases (ends_with path ".jsonl")) [
        | inr no_history ↦ cc (rw no_history at e)
        | inl history ↦ elim (Bool-cases (starts_with path "claude/projects/")) [
          | inl claude ↦
              accounted rows r _ (rw (history, claude) at e)
                (parse_claude-count sha256 parse_date not_after session fallback_time rows)
          | inr other ↦ elim (Bool-cases (starts_with path "codex/sessions/")) [
            | inl codex ↦
                accounted rows r _ (rw (history, other, codex) at e)
                  (parse_codex-count sha256 parse_date stringify_event session fallback_time rows)
            | inr neither ↦ cc (rw (history, other, neither) at e)
          ]
        ]
      ]

  -- In the report on a history file, facts, duplicates, malformed and unknown rows add up to the rows
  -- considered, and these and the skipped lines to the lines that are not blank, whatever the parser
  -- of JSON does.
  pub parse_by_path-count :
      {r : ParseReport}
      → parse_by_path parse sha256 parse_date not_after stringify_event path text fallback_time
        ≡ some r
      → (counted r ≡ r.considered)
        × (r.considered + (read_jsonl parse text).1 ≡ written (split_on b'\n' text))
  parse_by_path-count e =
      let all = parse_by_path-Accounts e in
      (all.0, omega (arith, all.1, read_jsonl-count parse text))
