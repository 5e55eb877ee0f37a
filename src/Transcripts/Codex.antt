-- ===== src/Transcripts/Codex.antt =====
-- apps/web/src/lib/usage-parse.ts: `parseCodex`. `stringify_event` is `JSON.stringify` of
-- `{ last, timestamp }`, whose hash names an event without an identifier of its own.
use relaydot.Prelude.{
  ℕ, ◌+◌, ◌-◌, String, Bool, false, Option, none, some, List, [], ◌∷◌, ◌++◌, ltb, ◌=ˢ◌,
  if◌then◌else◌, any, length, ℤ,
}
use relaydot.Json.{Json, null, Row, get, as_object, as_string, as_text, or_nullish, is_nullish}
use relaydot.Transcripts.{ParsedFact, ParseReport, counter, fact_id, timestamp_of}

-- The counters of `last_token_usage` after the two subset tests.
pub record CodexCounters : Type 0 where
  pub input_total : ℕ
  pub cached : ℕ
  pub cache_write : ℕ
  pub output : ℕ
  pub reasoning : ℕ

-- Each counter that fails throws, and so do the subset tests.
unfoldable pub checked_counters :
    Option ℕ → Option ℕ → Option ℕ → Option ℕ → Option ℕ → Option CodexCounters
checked_counters (some input_total) (some cached) (some cache_write) (some output)
      (some reasoning) =
    if ltb input_total (cached + cache_write)
    then none
    else if ltb output reasoning
    then none
    else some (record {
      input_total = input_total;
      cached = cached;
      cache_write = cache_write;
      output = output;
      reasoning = reasoning;
    })
checked_counters _ _ _ _ _ = none

unfoldable pub read_counters : Row → Option CodexCounters
read_counters last =
    checked_counters (counter (get "input_tokens" last)) (counter (get "cached_input_tokens" last))
      (counter (get "cache_write_input_tokens" last)) (counter (get "output_tokens" last))
      (counter (get "reasoning_output_tokens" last))

-- `a ?? b ?? "unknown"` for a model, `none` when what it finds is no text.
abbrev pub model_or_unknown : Option Json → Option Json → Option String
model_or_unknown a b =
    if is_nullish (or_nullish a b) then some "unknown" else as_string (or_nullish a b)

-- `info`, with the `last_token_usage` that it holds: `none` is an unknown row.
abbrev info_of : Row → Row
info_of payload = elim (as_object (get "info" payload)) [ some info ↦ info | none ↦ payload ]

abbrev is_token_count : Option String → Bool
is_token_count none = false
is_token_count (some t) = t =ˢ "token_count"

abbrev pub token_usage : Row → Option (Row × Row)
token_usage row = elim (as_object (get "payload" row)) [
  | none ↦ none
  | some payload ↦
      if is_token_count (as_string (get "type" payload))
      then elim (as_object (get "last_token_usage" (info_of payload))) [
        | none ↦ none
        | some last ↦ some (info_of payload, last)
      ]
      else none
]

-- The report in the making, with the identifiers seen.
pub record CodexState : Type 0 where
  pub facts : List ParsedFact
  pub seen : List String
  pub duplicates : ℕ
  pub malformed : ℕ
  pub unknown : ℕ

abbrev pub no_events : CodexState
no_events = record { facts = []; seen = []; duplicates = 0; malformed = 0; unknown = 0 }

module _ (sha256 : String → String) (parse_date : String → Option ℤ)
    (stringify_event : Row → Json → String) (session_id : String) (fallback_time : ℤ) where
  abbrev or_null : Option Json → Json
  or_null none = null
  or_null (some v) = v

  abbrev derived_event : Row → Row → String
  derived_event row last =
      sha256 (stringify_event last (or_null (or_nullish (get "timestamp" row) none)))

  pub event_of : Row → Row → Row → String
  event_of row info last =
      elim (as_text
        (or_nullish (get "turn_id" row) (or_nullish (get "id" row) (get "turn_id" info)))) [
          | some event ↦ event
          | none ↦ derived_event row last
        ]

  unfoldable pub codex_fact : Row → String → CodexCounters → String → ParsedFact
  codex_fact row event c model = record {
    usage_fact_id = fact_id sha256 "openai" session_id event;
    provider = "openai";
    session_id = session_id;
    event_id = event;
    model_id = model;
    occurred_at = timestamp_of parse_date row fallback_time;
    tokens = record {
      input_uncached = c.input_total - c.cached - c.cache_write;
      cache_write_5m = 0;
      cache_write_1h = 0;
      cache_write_other = c.cache_write;
      cache_read = c.cached;
      output = c.output;
    };
    reasoning_output = c.reasoning;
  }

  abbrev is_malformed : CodexState → CodexState
  is_malformed s = record s { malformed = s.malformed + 1 }

  -- From the test of `seen`: the identifier stays seen when the model is no text.
  unfoldable pub add_event : Row → String → CodexCounters → Option String → CodexState → CodexState
  add_event row event c model s =
      let id = fact_id sha256 "openai" session_id event in
      if any (λ t. t =ˢ id) s.seen then record s { duplicates = s.duplicates + 1 } else elim model [
        | none ↦ record s { seen = id ∷ s.seen; malformed = s.malformed + 1 }
        | some name ↦ record s {
          seen = id ∷ s.seen;
          facts = s.facts ++ codex_fact row event c name ∷ [];
        }
      ]

  -- The body of the loop.
  unfoldable pub codex_row : Row → CodexState → CodexState
  codex_row row s = elim (token_usage row) [
    | none ↦ record s { unknown = s.unknown + 1 }
    | some (info, last) ↦ elim (read_counters last) [
      | none ↦ record s { malformed = s.malformed + 1 }
      | some c ↦
          add_event row (event_of row info last) c
            (model_or_unknown (get "model" row) (get "model" info)) s
    ]
  ]

  unfoldable pub codex_rows : List Row → CodexState → CodexState
  codex_rows [] s = s
  codex_rows (row ∷ rows) s = codex_rows rows (codex_row row s)

  unfoldable pub parse_codex : List Row → ParseReport
  parse_codex rows =
      let s = codex_rows rows no_events in
      record {
        facts = s.facts;
        considered = length rows;
        duplicates = s.duplicates;
        malformed = s.malformed;
        unknown = s.unknown;
      }
