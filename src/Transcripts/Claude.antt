-- ===== src/Transcripts/Claude.antt =====
-- apps/web/src/lib/usage-parse.ts: `parseClaude`. `not_after a b` is `a.localeCompare(b) <= 0` of the
-- runtime.
use relaydot.Prelude.{
  ℕ, ◌+◌, String, Bool, true, false, Option, none, some, List, [], ◌∷◌, ◌++◌, ltb, ◌=ˢ◌,
  if◌then◌else◌, any, update, length, order_by, get_or_else, ℤ,
}
use relaydot.Json.{Json, null, str, obj, Row, end, get, as_object, as_text}
use relaydot.Transcripts.{ParsedFact, ParseReport, counter, fact_id, spaced, timestamp_of}
use relaydot.Transcripts.Codex.{model_or_unknown}

-- An entry of the map `selected`. Its `event_id` is what `key.slice(session.length + 1)` gives back.
pub record Selected : Type 0 where
  pub key : String
  pub event_id : String
  pub row : Row
  pub usage : Row
  pub session : String

abbrev is_assistant : Option Json → Bool
is_assistant none = true
is_assistant (some (str s)) = s =ˢ "assistant"
is_assistant (some _) = false

abbrev session_of : String → Row → String
session_of default_session row = get_or_else (as_text (get "sessionId" row)) default_session

abbrev selected_as : Row → Row → String → String → Selected
selected_as row usage session event_id = record {
  key = spaced session event_id;
  event_id = event_id;
  row = row;
  usage = usage;
  session = session;
}

-- The tests of the first loop: `none` is an unknown row.
pub select_row : String → Row → Option Selected
select_row default_session row = elim (as_object (get "message" row)) [
  | none ↦ none
  | some message ↦
      if is_assistant (get "role" message)
      then elim (as_object (get "usage" message)) [
        | none ↦ none
        | some usage ↦ elim (as_text (get "id" message)) [
          | none ↦ none
          | some event_id ↦ some (selected_as row usage (session_of default_session row) event_id)
        ]
      ]
      else none
]

pub record ClaudeState : Type 0 where
  pub selected : List Selected
  pub duplicates : ℕ
  pub unknown : ℕ

abbrev pub none_selected : ClaudeState
none_selected = record { selected = []; duplicates = 0; unknown = 0 }

abbrev pub has_key : String → Selected → Bool
has_key key s = s.key =ˢ key

-- `selected.set`: a key that is there keeps its place.
unfoldable pub set_selected : Selected → ClaudeState → ClaudeState
set_selected e s =
    if any (has_key e.key) s.selected
    then record s {
      selected = update (has_key e.key) (λ _. e) s.selected;
      duplicates = s.duplicates + 1;
    }
    else record s { selected = s.selected ++ e ∷ [] }

unfoldable pub claude_rows : String → List Row → ClaudeState → ClaudeState
claude_rows default_session [] s = s
claude_rows default_session (row ∷ rows) s =
    claude_rows default_session rows (elim (select_row default_session row) [
      | none ↦ record s { unknown = s.unknown + 1 }
      | some e ↦ set_selected e s
    ])

pub record CacheWrites : Type 0 where
  pub write_5m : ℕ
  pub write_1h : ℕ
  pub write_other : ℕ

abbrev writes : Option ℕ → Option ℕ → Option ℕ → Option CacheWrites
writes (some a) (some b) (some c) = some (record { write_5m = a; write_1h = b; write_other = c })
writes _ _ _ = none

-- The undifferentiated total is checked in both cases, and counts when there is no object.
abbrev ignored_if_valid : Option ℕ → Option ℕ
ignored_if_valid none = none
ignored_if_valid (some n) = some 0

pub cache_writes : Row → Option CacheWrites
cache_writes usage = elim (get "cache_creation" usage) [
  | some (obj creation) ↦
      writes (counter (get "ephemeral_5m_input_tokens" creation))
        (counter (get "ephemeral_1h_input_tokens" creation))
        (ignored_if_valid (counter (get "cache_creation_input_tokens" usage)))
  | some null ↦ writes (some 0) (some 0) (counter (get "cache_creation_input_tokens" usage))
  | none ↦ writes (some 0) (some 0) (counter (get "cache_creation_input_tokens" usage))
  | some _ ↦ none
]

abbrev thinking_tokens : Row → Option ℕ
thinking_tokens usage = elim (as_object (get "output_tokens_details" usage)) [
  | some details ↦ counter (get "thinking_tokens" details)
  | none ↦ some 0
]

-- `outputTokens` and `thinking`, a subset of it.
unfoldable pub output_tokens : Row → Option (ℕ × ℕ)
output_tokens usage = elim (counter (get "output_tokens" usage)) [
  | none ↦ none
  | some output ↦ elim (thinking_tokens usage) [
    | none ↦ none
    | some thinking ↦ if ltb output thinking then none else some (output, thinking)
  ]
]

abbrev message_of : Row → Row
message_of row = get_or_else (as_object (get "message" row)) end

module _ (sha256 : String → String) (parse_date : String → Option ℤ)
    (not_after : String → String → Bool) (default_session : String) (fallback_time : ℤ) where
  unfoldable pub claude_fact : Selected → CacheWrites → String → ℕ × ℕ → ℕ → ℕ → ParsedFact
  claude_fact e w model (output, thinking) input cache_read = record {
    usage_fact_id = fact_id sha256 "claude" e.session e.event_id;
    provider = "claude";
    session_id = e.session;
    event_id = e.event_id;
    model_id = model;
    occurred_at = timestamp_of parse_date e.row fallback_time;
    tokens = record {
      input_uncached = input;
      cache_write_5m = w.write_5m;
      cache_write_1h = w.write_1h;
      cache_write_other = w.write_other;
      cache_read = cache_read;
      output = output;
    };
    reasoning_output = thinking;
  }

  -- The `try` of the second loop: `none` is a record that it counts as malformed.
  unfoldable pub fact_of : Selected → Option ParsedFact
  fact_of e = elim (cache_writes e.usage) [
    | none ↦ none
    | some w ↦ elim (model_or_unknown (get "model" (message_of e.row)) (get "model" e.row)) [
      | none ↦ none
      | some model ↦ elim (output_tokens e.usage) [
        | none ↦ none
        | some out ↦ elim (counter (get "input_tokens" e.usage)) [
          | none ↦ none
          | some input ↦ elim (counter (get "cache_read_input_tokens" e.usage)) [
            | none ↦ none
            | some cache_read ↦ some (claude_fact e w model out input cache_read)
          ]
        ]
      ]
    ]
  ]

  -- The second loop: the facts in order, and the number of malformed records.
  unfoldable pub claude_facts : List Selected → List ParsedFact × ℕ
  claude_facts [] = ([], 0)
  claude_facts (e ∷ es) =
      let (facts, malformed) = claude_facts es in
      elim (fact_of e) [ none ↦ (facts, malformed + 1) | some f ↦ (f ∷ facts, malformed) ]

  abbrev pub id_not_after : ParsedFact → ParsedFact → Bool
  id_not_after a b = not_after a.usage_fact_id b.usage_fact_id

  unfoldable pub parse_claude : List Row → ParseReport
  parse_claude rows =
      let s = claude_rows default_session rows none_selected in
      let (facts, malformed) = claude_facts s.selected in
      record {
        facts = order_by id_not_after facts;
        considered = length rows;
        duplicates = s.duplicates;
        malformed = malformed;
        unknown = s.unknown;
      }
