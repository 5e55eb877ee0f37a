-- ===== src/Api/Rates.antt =====
-- apps/web/src/lib/api.ts: the price that the body of a request asks to approve. `protocol_of` stands
-- for `new URL(source)` and its protocol, `none` where it throws. Rates are exact dollars, rounded
-- half up to microUSD.
use relaydot.Prelude.{
  ℕ, suc, ◌+◌, ◌*◌, ◌/◌, String, Bool, not, ◌&&◌, Option, none, some, ◌==◌, ◌=ˢ◌, ◌+ˢ◌,
  if◌then◌else◌, get_or_else, Result, ok, err, validation,
}
use relaydot.Prelude.Results.{◌>>=◌}
use relaydot.Json.{
  Number, ratio, infinite, num, Row, get, as_string, as_text, is_nullish, is_finite,
}
use relaydot.Store.Schema.{PriceRates}
use relaydot.Store.Catalog.{PriceInput}

abbrev is_below_zero : Number → Bool
is_below_zero (infinite negative) = negative
is_below_zero (ratio negative m below) = negative && not (m == 0)

abbrev pub require_rate : Row → String → Result Number
require_rate body field = elim (get field body) [
  | some (num n) ↦
      if is_finite n && not (is_below_zero n)
      then ok n
      else err (validation (field +ˢ " must be a nonnegative number"))
  | _ ↦ err (validation (field +ˢ " must be a nonnegative number"))
]

-- `optionalRate(body, field) ?? fallback`.
abbrev pub optional_rate : Row → String → Number → Result Number
optional_rate body field fallback =
    if is_nullish (get field body) then ok fallback else require_rate body field

-- `Math.round(rate * 1_000_000)` of a nonnegative rate, on the exact fraction: the double of the product
-- may fall on the other side of a half.
abbrev pub to_micro : Number → ℕ
to_micro (infinite negative) = 0
to_micro (ratio negative m below) = (m * 2000000 + suc below) / (2 * suc below)

abbrev rates_of : Number → Number → Number → Number → Number → PriceRates
rates_of input output cache_read write_5m write_1h = record {
  input_uncached = to_micro input;
  cache_write_5m = to_micro write_5m;
  cache_write_1h = to_micro write_1h;
  cache_write_other = to_micro write_5m;
  cache_read = to_micro cache_read;
  output = to_micro output;
}

abbrev provider_checked : String → Result String
provider_checked provider =
    if provider =ˢ "claude"
    then ok provider
    else if provider =ˢ "openai"
    then ok provider
    else err (validation "provider must be claude or openai")

abbrev protocol_checked : Option String → Result (Unit {0})
protocol_checked none = err (validation "source_url must be an absolute URL")
protocol_checked (some protocol) =
    if protocol =ˢ "https:" then ok tt else err (validation "source_url must use https")

abbrev text_of : Row → String → Result String
text_of body field = elim (as_text (get field body)) [
  | none ↦ err (validation (field +ˢ " must be a non-empty string"))
  | some value ↦ ok value
]

-- The row that the body of a request asks to approve.
unfoldable pub read_price : (String → Option String) → Row → Result PriceInput
read_price protocol_of body = text_of body "model_id" >>= λ model_id.
    text_of body "provider" >>= λ provider. provider_checked provider >>= λ provider.
    text_of body "source_url" >>= λ source_url. protocol_checked (protocol_of source_url) >>= λ _.
    require_rate body "input_usd_per_mtok" >>= λ input.
    require_rate body "output_usd_per_mtok" >>= λ output.
    optional_rate body "cache_read_usd_per_mtok" input >>= λ cache_read.
    optional_rate body "cache_write_5m_usd_per_mtok" input >>= λ write_5m.
    optional_rate body "cache_write_1h_usd_per_mtok" input >>= λ write_1h. ok (record {
      model_id = model_id;
      provider = provider;
      display_name = get_or_else (as_text (get "display_name" body)) model_id;
      rates = rates_of input output cache_read write_5m write_1h;
      source_url = some source_url;
      approved_by = some "operator";
      effective_date = some (get_or_else (as_string (get "effective_date" body)) "");
    })
