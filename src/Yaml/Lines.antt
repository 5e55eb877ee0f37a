-- ===== src/Yaml/Lines.antt =====
-- apps/web/src/lib/yaml-lite.ts: `scan`, the lines of a text that are neither blank nor markers.
use Prim.Native.Char.{code}
use relaydot.Prelude.{
  ℕ, suc, String, Bool, true, false, List, [], ◌∷◌, ◌==◌, ◌=ˢ◌, if◌then◌else◌, is_space, split_on,
  trim,
}
use relaydot.Yaml.{Outcome, done, fail, ◌>>=◌}
use relaydot.Yaml.Scalars.{strip_comment}

pub record Line : Type 0 where
  pub indent : ℕ
  pub text : String
  pub number : ℕ

-- `raw.replace(/\t/g, "    ")`
abbrev pub expand_tabs : String → String
expand_tabs String.[] = ""
expand_tabs (String.◌∷◌ c s) =
    let rest = expand_tabs s in
    if code c == b'\t'
    then String.◌∷◌ " " (String.◌∷◌ " " (String.◌∷◌ " " (String.◌∷◌ " " rest)))
    else String.◌∷◌ c rest

-- `text.length - text.trimStart().length`
abbrev pub leading_spaces : String → ℕ
leading_spaces String.[] = 0
leading_spaces (String.◌∷◌ c s) = let rest = leading_spaces s in if is_space c then suc rest else 0

abbrev pub line_of : ℕ → String → Line
line_of number text = record { indent = leading_spaces text; text = trim text; number = number }

-- The body of the loop, with the lines that the rest of it pushes: `has_lines` is
-- `lines.length > 0`.
unfoldable pub scan_line : Bool → ℕ → String → (Bool → Outcome (List Line)) → Outcome (List Line)
scan_line has_lines number text later =
    if trim text =ˢ ""
    then later has_lines
    else if trim text =ˢ "---"
    then (if has_lines
        then fail "multiple YAML documents are not supported" number
        else later false)
    else if trim text =ˢ "..."
    then later has_lines
    else (later true >>= λ lines. done (line_of number text ∷ lines))

unfoldable pub scan_lines : Bool → ℕ → List String → Outcome (List Line)
unfolding strip_comment scan_line
scan_lines has_lines number [] = done []
scan_lines has_lines number (raw ∷ raws) =
    scan_line has_lines number (strip_comment (expand_tabs raw))
      (λ b. scan_lines b (suc number) raws)

unfoldable pub scan : String → Outcome (List Line)
unfolding scan_lines
scan source = scan_lines false 1 (split_on b'\n' source)
