-- ===== src/Transcripts/Accounting.antt =====
-- apps/web/src/lib/usage-parse.ts: every row of a history is accounted for.
use relaydot.Prelude.{
  ℕ, ◌+◌, String, Bool, Option, List, [], ◌∷◌, ◌≡◌, refl, ℤ, length, arith, length-append,
  length-update, length-order_by,
}
use relaydot.Json.{Json, Row}
use relaydot.Transcripts.{ParsedFact, ParseReport}
use relaydot.Transcripts.Codex.{
  CodexState, CodexCounters, add_event, codex_row, codex_rows, parse_codex, no_events,
}
use relaydot.Transcripts.Claude.{
  none_selected, id_not_after, has_key, Selected, ClaudeState, set_selected, claude_rows,
  claude_facts, parse_claude,
}

abbrev pub counted : ParseReport → ℕ
counted r = length r.facts + r.duplicates + r.malformed + r.unknown

module _ (sha256 : String → String) (parse_date : String → Option ℤ)
    (stringify_event : Row → Json → String) (session_id : String) (fallback_time : ℤ) where
  abbrev codex_count : CodexState → ℕ
  codex_count s = length s.facts + s.duplicates + s.malformed + s.unknown

  add_event-count :
      (row : Row) (event : String) (c : CodexCounters) (model : Option String) (s : CodexState)
      → codex_count
          (add_event sha256 parse_date stringify_event session_id fallback_time row event c model s)
        ≡ codex_count s + 1
  unfolding add_event
  add_event-count row event c model s = grind (arith, length-append {A = ParsedFact})

  codex_row-count :
      (row : Row) (s : CodexState)
      → codex_count (codex_row sha256 parse_date stringify_event session_id fallback_time row s)
        ≡ codex_count s + 1
  unfolding codex_row
  codex_row-count row s = grind (arith, add_event-count)

  codex_rows-count :
      (rows : List Row) (s : CodexState)
      → codex_count (codex_rows sha256 parse_date stringify_event session_id fallback_time rows s)
        ≡ codex_count s + length rows
  unfolding codex_rows
  codex_rows-count [] s = omega arith
  codex_rows-count (row ∷ rows) s = omega (
    arith,
    codex_rows-count rows
        (codex_row sha256 parse_date stringify_event session_id fallback_time row s),
    codex_row-count row s,
  )

  -- In the report of `parseCodex` the facts, the duplicates, the malformed and the unknown rows add
  -- up to the rows considered, which are all the rows given.
  pub parse_codex-count :
      (rows : List Row)
      → let r = parse_codex sha256 parse_date stringify_event session_id fallback_time rows in
        (counted r ≡ r.considered) × (r.considered ≡ length rows)
  unfolding parse_codex
  parse_codex-count rows = (omega (arith, codex_rows-count rows no_events), refl)

module _ (sha256 : String → String) (parse_date : String → Option ℤ)
    (not_after : String → String → Bool) (default_session : String) (fallback_time : ℤ) where
  abbrev claude_count : ClaudeState → ℕ
  claude_count s = length s.selected + s.duplicates + s.unknown

  set_selected-count :
      (e : Selected) (s : ClaudeState) → claude_count (set_selected e s) ≡ claude_count s + 1
  unfolding set_selected
  set_selected-count e s =
      ground (
        arith,
        length-append s.selected (e ∷ []),
        length-update (has_key e.key) (λ _. e) s.selected,
      )

  claude_rows-count :
      (rows : List Row) (s : ClaudeState)
      → claude_count (claude_rows default_session rows s) ≡ claude_count s + length rows
  unfolding claude_rows
  claude_rows-count [] s = omega arith
  claude_rows-count (row ∷ rows) s = grind (arith, claude_rows-count rows, set_selected-count)

  claude_facts-count :
      (es : List Selected)
      → let (facts, malformed) =
          claude_facts sha256 parse_date not_after default_session fallback_time es in
        length facts + malformed ≡ length es
  unfolding claude_facts
  claude_facts-count [] = refl
  claude_facts-count (e ∷ es) = ground (arith, claude_facts-count es)

  -- In the report of `parseClaude` the facts, the rows that a later row of the same message
  -- replaces, the malformed records and the unknown rows add up to the rows considered, which are
  -- all the rows given.
  pub parse_claude-count :
      (rows : List Row)
      → let r = parse_claude sha256 parse_date not_after default_session fallback_time rows in
        (counted r ≡ r.considered) × (r.considered ≡ length rows)
  unfolding parse_claude
  parse_claude-count rows =
      let selected = (claude_rows default_session rows none_selected).selected in
      let facts =
        (claude_facts sha256 parse_date not_after default_session fallback_time selected).0 in
      (
        omega (
          arith,
          length-order_by (id_not_after sha256 parse_date not_after default_session fallback_time)
              facts,
          claude_facts-count selected,
          claude_rows-count rows none_selected,
        ),
        refl,
      )
