-- ===== src/Transcripts.antt =====
-- apps/web/src/lib/usage-parse.ts: what the two parsers of conversation histories share. `sha256` is
-- the hash of node:crypto, and `parse_date` is `Date.parse` of the runtime, `none` for `NaN`.
pub mod Claude
pub mod Codex
pub mod Accounting
pub mod Counters
pub mod Jsonl
pub mod Histories
mod Tests
use Prim.Native.String.{◌++◌ as ◌+ˢ◌}
use relaydot.Prelude.{
  ℕ, suc, ◌+◌, ◌*◌, ◌/◌, String, Bool, true, false, not, ◌&&◌, Option, none, some, List, ◌=ˢ◌, ltb,
  if◌then◌else◌, ℤ, pos, negsuc, sub_ℕ,
}
use relaydot.Json.{
  Number, ratio, infinite, Json, null, num, str, Row, get, or_nullish, as_nonnegative,
}
use relaydot.Store.Schema.{TokenCounts}

pub record ParsedFact : Type 0 where
  pub usage_fact_id : String
  pub provider : String
  pub session_id : String
  pub event_id : String
  pub model_id : String
  pub occurred_at : ℤ
  pub tokens : TokenCounts
  pub reasoning_output : ℕ

pub record ParseReport : Type 0 where
  pub facts : List ParsedFact
  pub considered : ℕ
  pub duplicates : ℕ
  pub malformed : ℕ
  pub unknown : ℕ

-- `none` is the RangeError.
abbrev pub counter : Option Json → Option ℕ
counter none = some 0
counter (some null) = some 0
counter (some (num n)) = as_nonnegative n
counter (some _) = none

-- `${a} ${b}`.
abbrev pub spaced : String → String → String
spaced a b = a +ˢ " " +ˢ b

abbrev pub fact_id : (String → String) → String → String → String → String
fact_id sha256 provider session event = sha256 (spaced provider (spaced session event))

-- `Math.floor` of a fraction over `below + 1`.
abbrev floor : Bool → ℕ → ℕ → ℤ
floor false n below = pos (n / suc below)
floor true n below = sub_ℕ 0 ((n + below) / suc below)

abbrev floor_thousandth : ℤ → ℤ
floor_thousandth (pos n) = floor false n 999
floor_thousandth (negsuc n) = floor true (suc n) 999

-- A number of seconds, or of milliseconds above 1e11.
abbrev from_number : ℤ → Number → ℤ
from_number fallback (infinite _) = fallback
from_number fallback (ratio negative n below) =
    if not negative && ltb (100000000000 * suc below) n
    then pos (n / (suc below * 1000))
    else floor negative n below

pub timestamp_of : (String → Option ℤ) → Row → ℤ → ℤ
timestamp_of parse_date row fallback =
    elim (or_nullish (get "timestamp" row) (or_nullish (get "created_at" row) (get "time" row))) [
      | some (num n) ↦ from_number fallback n
      | some (str s) ↦ elim (parse_date s) [ some ms ↦ floor_thousandth ms | none ↦ fallback ]
      | _ ↦ fallback
    ]
