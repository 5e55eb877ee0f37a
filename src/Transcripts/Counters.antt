-- ===== src/Transcripts/Counters.antt =====
-- apps/web/src/lib/usage-parse.ts: which counters the parsed facts carry.
use relaydot.Prelude.{
  ℕ, ◌+◌, ◌≤◌, String, Bool, Option, some, List, [], ◌∷◌, ◌≡◌, ℤ, All, arith, All-append,
  All-order_by, Option-cases, Bool-cases, none, any, ◌=ˢ◌, inl, inr,
}
use relaydot.Json.{Json, Row, get}
use relaydot.Transcripts.{ParsedFact, counter, fact_id}
use relaydot.Transcripts.Codex.{
  CodexState, CodexCounters, read_counters, add_event, event_of, token_usage, model_or_unknown,
  checked_counters, codex_fact, codex_row, codex_rows, parse_codex, no_events,
}
use relaydot.Transcripts.Claude.{
  Selected, output_tokens, claude_fact, fact_of, claude_facts, claude_rows, none_selected,
  id_not_after, parse_claude,
}

-- The tokens that Codex counts as input: what the fact splits into three.
abbrev pub input_of : ParsedFact → ℕ
input_of f = f.tokens.input_uncached + f.tokens.cache_read + f.tokens.cache_write_other

-- `f` was read from a row among those that satisfy `P`: its input counters add up to the row's
-- total, and its output is the row's, of which the reasoning is a part.
abbrev pub IsMetered : (Row → Type 0) → ParsedFact → Type 0
IsMetered P f =
    (row : Row) × (info : Row) × (last : Row) × P row
    × (token_usage row ≡ some (info, last))
    × (counter (get "input_tokens" last) ≡ some (input_of f))
    × (counter (get "output_tokens" last) ≡ some f.tokens.output)
    × (f.reasoning_output ≤ f.tokens.output)

-- What the subset tests leave.
abbrev Covers : Option ℕ → Option ℕ → CodexCounters → Type 0
Covers total output c =
    (c.cached + c.cache_write ≤ c.input_total)
    × (c.reasoning ≤ c.output)
    × (total ≡ some c.input_total)
    × (output ≡ some c.output)

checked_counters-Covers :
    (a b c d e : Option ℕ) (k : CodexCounters) → checked_counters a b c d e ≡ some k → Covers a d k
unfolding checked_counters
checked_counters-Covers (some a) (some b) (some c) (some d) (some e) k h =
    (ground arith, ground arith, ground arith, ground arith)
checked_counters-Covers none b c d e k h = absurd (ground arith)
checked_counters-Covers (some a) none c d e k h = absurd (ground arith)
checked_counters-Covers (some a) (some b) none d e k h = absurd (ground arith)
checked_counters-Covers (some a) (some b) (some c) none e k h = absurd (ground arith)
checked_counters-Covers (some a) (some b) (some c) (some d) none k h = absurd (ground arith)

abbrev CoversRow : Row → CodexCounters → Type 0
CoversRow last = Covers (counter (get "input_tokens" last)) (counter (get "output_tokens" last))

read_counters-Covers :
    (last : Row) (c : CodexCounters) → read_counters last ≡ some c → CoversRow last c
unfolding read_counters
read_counters-Covers last c h =
    checked_counters-Covers (counter (get "input_tokens" last))
      (counter (get "cached_input_tokens" last)) (counter (get "cache_write_input_tokens" last))
      (counter (get "output_tokens" last)) (counter (get "reasoning_output_tokens" last)) c h

module _ (sha256 : String → String) (parse_date : String → Option ℤ)
    (stringify_event : Row → Json → String) (session_id : String) (fallback_time : ℤ)
    (P : Row → Type 0) where
  codex_fact-IsMetered :
      (row info last : Row) (event : String) (c : CodexCounters) (model : String)
      → P row
      → token_usage row ≡ some (info, last)
      → CoversRow last c
      → IsMetered P
          (codex_fact sha256 parse_date stringify_event session_id fallback_time row event c model)
  unfolding codex_fact
  codex_fact-IsMetered row info last event c model p u (input, reasoning, total, output) =
      (row, info, last, p, u, ground arith, output, reasoning)

  add_event-IsMetered :
      (row info last : Row) (event : String) (c : CodexCounters) (model : Option String)
      (s : CodexState)
      → P row
      → token_usage row ≡ some (info, last)
      → CoversRow last c
      → All (IsMetered P) s.facts
      → All
          (IsMetered P)
          (add_event sha256 parse_date stringify_event session_id fallback_time row event c model
            s).facts
  unfolding add_event
  add_event-IsMetered row info last event c model s p u k h =
      elim (Bool-cases (any (λ t. t =ˢ fact_id sha256 "openai" session_id event) s.seen)) [
        | inl e ↦ ground arith
        | inr e ↦ elim (Option-cases model) [
          | inl m ↦ ground arith
          | inr (name, m) ↦ ground (
            arith,
            All-append (IsMetered P) s.facts
                (codex_fact sha256 parse_date stringify_event session_id fallback_time row event c
                    name
                  ∷ [])
                h (codex_fact-IsMetered row info last event c name p u k, tt),
          )
        ]
      ]

  codex_row-IsMetered :
      (row : Row) (s : CodexState)
      → P row
      → All (IsMetered P) s.facts
      → All
          (IsMetered P)
          (codex_row sha256 parse_date stringify_event session_id fallback_time row s).facts
  unfolding codex_row
  codex_row-IsMetered row s p h = elim (Option-cases (token_usage row)) [
    | inl e ↦ ground arith
    | inr ((info, last), e) ↦ elim (Option-cases (read_counters last)) [
      | inl c ↦ ground arith
      | inr (c, k) ↦ ground (
        arith,
        add_event-IsMetered row info last
            (event_of sha256 parse_date stringify_event session_id fallback_time row info last) c
            (model_or_unknown (get "model" row) (get "model" info)) s p e
            (read_counters-Covers last c k) h,
      )
    ]
  ]

  codex_rows-IsMetered :
      (rows : List Row) (s : CodexState)
      → All P rows
      → All (IsMetered P) s.facts
      → All
          (IsMetered P)
          (codex_rows sha256 parse_date stringify_event session_id fallback_time rows s).facts
  unfolding codex_rows
  codex_rows-IsMetered [] s ps h = h
  codex_rows-IsMetered (row ∷ rows) s (p, ps) h =
      codex_rows-IsMetered rows
        (codex_row sha256 parse_date stringify_event session_id fallback_time row s) ps
        (codex_row-IsMetered row s p h)

  -- Whatever holds of all the rows given, every fact that `parseCodex` returns was read from a row
  -- of which it holds: the fact's uncached, cached and cache-write tokens add up to the input total
  -- of that row, its output is the output of that row, and its reasoning tokens are no more than its
  -- output.
  pub parse_codex-IsMetered :
      (rows : List Row)
      → All P rows
      → All
          (IsMetered P)
          (parse_codex sha256 parse_date stringify_event session_id fallback_time rows).facts
  unfolding parse_codex
  parse_codex-IsMetered rows ps = codex_rows-IsMetered rows no_events ps tt

-- `thinking_tokens` counts among `output_tokens`.
abbrev pub IsSubset : ParsedFact → Type 0
IsSubset f = f.reasoning_output ≤ f.tokens.output

output_tokens-le :
    (usage : Row) (output thinking : ℕ)
    → output_tokens usage ≡ some (output, thinking)
    → thinking ≤ output
unfolding output_tokens
output_tokens-le usage output thinking h = ground arith

module _ (sha256 : String → String) (parse_date : String → Option ℤ)
    (not_after : String → String → Bool) (default_session : String) (fallback_time : ℤ) where
  fact_of-IsSubset :
      (e : Selected) (f : ParsedFact)
      → fact_of sha256 parse_date not_after default_session fallback_time e ≡ some f
      → IsSubset f
  unfolding fact_of claude_fact
  fact_of-IsSubset e f h = elim (Option-cases (output_tokens e.usage)) [
    | inl o ↦ absurd (ground arith)
    | inr ((output, thinking), o) ↦ ground (arith, output_tokens-le e.usage output thinking o)
  ]

  claude_facts-IsSubset :
      (es : List Selected)
      → All IsSubset (claude_facts sha256 parse_date not_after default_session fallback_time es).0
  unfolding claude_facts
  claude_facts-IsSubset [] = tt
  claude_facts-IsSubset (e ∷ es) =
      elim (Option-cases (fact_of sha256 parse_date not_after default_session fallback_time e)) [
        | inl o ↦ ground (arith, claude_facts-IsSubset es)
        | inr (f, o) ↦ ground (arith, claude_facts-IsSubset es, fact_of-IsSubset e f o)
      ]

  -- In every fact that `parseClaude` returns, the reasoning tokens are no more than the output.
  pub parse_claude-IsSubset :
      (rows : List Row)
      → All IsSubset
          (parse_claude sha256 parse_date not_after default_session fallback_time rows).facts
  unfolding parse_claude
  parse_claude-IsSubset rows =
      let selected = (claude_rows default_session rows none_selected).selected in
      All-order_by IsSubset (id_not_after sha256 parse_date not_after default_session fallback_time)
        (claude_facts sha256 parse_date not_after default_session fallback_time selected).0
        (claude_facts-IsSubset selected)
