-- ===== src/Analytics/Labels.antt =====
-- apps/web/src/lib/analytics.ts: the texts of amounts and times. `show` prints a number;
-- `dollars` is `toLocaleString` of a count of microUSD, in dollars with two decimals; `tenths n d` is
-- `String(Number((n / d).toFixed(1)))`; `percent n d` is `((n / d) * 100).toFixed(1)`; `month_of`,
-- `day_of` and `hour_of` are the UTC parts of a Date, by its seconds.
use relaydot.Prelude.{
  ℕ, zero, suc, ◌+◌, ◌-◌, ◌*◌, ◌/◌, String, List, [], ◌∷◌, ltb, leb, ◌==◌, ◌+ˢ◌, if◌then◌else◌,
}

abbrev months : List String
months =
    "Jan" ∷ "Feb" ∷ "Mar" ∷ "Apr" ∷ "May" ∷ "Jun" ∷ "Jul" ∷ "Aug" ∷ "Sep" ∷ "Oct" ∷ "Nov" ∷ "Dec"
    ∷ []

-- `MONTHS[i]`, with the text of what lies outside.
abbrev nth : ℕ → List String → String
nth i [] = "undefined"
nth zero (s ∷ ss) = s
nth (suc i) (s ∷ ss) = nth i ss

pub record Parts : Type 0 where
  pub month : String
  pub day : ℕ
  pub hour : ℕ

module _ (show : ℕ → String) where
  unfoldable pub format_usd : (ℕ → String) → ℕ → String
  format_usd dollars micro_usd = "$" +ˢ dollars micro_usd

  -- `Math.round` takes halves up.
  abbrev pub scaled : (ℕ → ℕ → String) → ℕ → String → ℕ → String
  scaled tenths unit suffix count =
      (if leb (100 * unit) count then show ((count + unit / 2) / unit) else tenths count unit)
      +ˢ suffix

  unfoldable pub format_tokens : (ℕ → ℕ → String) → ℕ → String
  format_tokens tenths count =
      if leb 1000000 count
      then scaled tenths 1000000 "M" count
      else if leb 1000 count
      then scaled tenths 1000 "K" count
      else show count

  unfoldable pub format_share : (ℕ → ℕ → String) → ℕ → ℕ → String
  format_share percent part whole = if whole == 0 then "0.0%" else percent part whole +ˢ "%"

  unfoldable pub clock_label : ℕ → String
  clock_label hour =
      if hour == 0
      then "12 AM"
      else if hour == 12
      then "12 PM"
      else if ltb hour 12
      then show hour +ˢ " AM"
      else show (hour - 12) +ˢ " PM"

  module _ (month_of day_of hour_of : ℕ → ℕ) where
    abbrev pub parts : ℕ → Parts
    parts epoch_seconds = record {
      month = nth (month_of epoch_seconds) months;
      day = day_of epoch_seconds;
      hour = hour_of epoch_seconds;
    }

    abbrev day_label : Parts → String
    day_label p = p.month +ˢ " " +ˢ show p.day

    abbrev hour_label : Parts → String
    hour_label p = day_label p +ˢ ", " +ˢ clock_label p.hour

    unfoldable pub format_range_caption : ℕ → ℕ → String
    format_range_caption from to = hour_label (parts from) +ˢ " to " +ˢ hour_label (parts to)

    unfoldable pub format_bucket_tick : ℕ → ℕ → String
    format_bucket_tick epoch_seconds bucket_seconds =
        if bucket_seconds == 3600
        then clock_label (parts epoch_seconds).hour
        else day_label (parts epoch_seconds)

    unfoldable pub format_bucket_tooltip : ℕ → ℕ → String
    format_bucket_tooltip epoch_seconds bucket_seconds =
        if bucket_seconds == 3600
        then hour_label (parts epoch_seconds)
        else day_label (parts epoch_seconds)
