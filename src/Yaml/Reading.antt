-- ===== src/Yaml/Reading.antt =====
-- apps/web/src/lib/yaml-lite.ts: the loops end, and what they read has distinct keys.
use relaydot.Prelude.{
  ℕ, zero, suc, String, Bool, true, false, ◌≡◌, ◌≢◌, List, [], ◌∷◌, ◌=ˢ◌, trim, arith, split_on,
}
use relaydot.Json.{Number, Json, Items, nil, Fields, end}
use relaydot.Yaml.{Outcome, done, unfinished}
use relaydot.Yaml.Scalars.{strip_comment}
use relaydot.Yaml.Lines.{Line, scan_lines, scan_line, scan, expand_tabs}
use relaydot.Yaml.Blocks.{size_of, parse_mapping, parse_sequence, parse_lines, parse_yaml, finished}
use relaydot.Yaml.Outcomes.{
  Ensures-done, Ensures-ends, if-Ensures, Ensures-bind, Ends, Ensures, holds, threw,
}
use relaydot.Yaml.Keys.{IsKeyed, AreKeyed, IsMapping, null-Keyed}
use relaydot.Yaml.Entries.{IsSound, parse_node-Within}
use relaydot.Yaml.Rounds.{mapping_step-Within, sequence_step-Within}

module _ (is_inherited : String → Bool) (float : String → Number) (quoted : String → String) where
  mutual
    unfolding parse_mapping parse_sequence

    -- With more fuel than `n` the loops end on all lines up to this size.
    parse_mapping-IsSound :
        (n : ℕ) (fields : Fields)
        → IsMapping is_inherited fields
        → IsSound
            (IsMapping is_inherited)
            n
            (parse_mapping float quoted is_inherited (suc n) fields)
    parse_mapping-IsSound n fields h indent [] le = holds (h, omega arith)
    parse_mapping-IsSound zero fields h indent (line ∷ rest) le = absurd (omega arith)
    parse_mapping-IsSound (suc n) fields h indent (line ∷ rest) le =
        mapping_step-Within is_inherited float quoted
          (parse_mapping float quoted is_inherited (suc n))
          (parse_sequence float quoted is_inherited (suc n)) n (parse_mapping-IsSound n)
          (parse_sequence-IsSound n) fields indent line rest h le

    parse_sequence-IsSound :
        (n : ℕ) (items : Items)
        → AreKeyed is_inherited items
        → IsSound (AreKeyed is_inherited) n (parse_sequence float quoted is_inherited (suc n) items)
    parse_sequence-IsSound n items h indent [] le = holds (h, omega arith)
    parse_sequence-IsSound zero items h indent (line ∷ rest) le = absurd (omega arith)
    parse_sequence-IsSound (suc n) items h indent (line ∷ rest) le =
        sequence_step-Within is_inherited float quoted
          (parse_mapping float quoted is_inherited (suc n))
          (parse_sequence float quoted is_inherited (suc n)) n (parse_mapping-IsSound n)
          (parse_sequence-IsSound n) items indent line rest h le

  finished-Ensures :
      (v : Json) (left : List Line)
      → IsKeyed is_inherited v
      → Ensures (IsKeyed is_inherited) (finished float quoted is_inherited (v, left))
  finished-Ensures v [] h = holds h
  finished-Ensures v (line ∷ rest) h = threw

  parse_lines-Ensures :
      (lines : List Line)
      → Ensures (IsKeyed is_inherited) (parse_lines float quoted is_inherited lines)
  unfolding parse_lines
  parse_lines-Ensures [] = holds (null-Keyed is_inherited)
  parse_lines-Ensures (line ∷ rest) =
      Ensures-bind
        (parse_node-Within is_inherited float quoted
          (parse_mapping float quoted is_inherited (suc (size_of (line ∷ rest))) end)
          (parse_sequence float quoted is_inherited (suc (size_of (line ∷ rest))) nil)
          (size_of (line ∷ rest))
          (parse_mapping-IsSound (size_of (line ∷ rest)) end (unfold IsMapping in tt))
          (parse_sequence-IsSound (size_of (line ∷ rest)) nil (unfold IsMapping in tt)) line.indent
          line rest (omega arith))
        λ (v, left) p. finished-Ensures v left p.0

scan_line-Ends :
    (has_lines : Bool) (number : ℕ) (text : String) (later : Bool → Outcome (List Line))
    → ((b : Bool) → Ends (later b))
    → Ends (scan_line has_lines number text later)
unfolding scan_line
scan_line-Ends has_lines number text later h = if-Ensures (trim text =ˢ "") _ _ (h has_lines) (
    if-Ensures (trim text =ˢ "---") _ _ (if-Ensures has_lines _ _ threw (h false)) (
      if-Ensures (trim text =ˢ "...") _ _ (h has_lines)
        (Ensures-bind (h true) λ lines _. holds tt)))

scan_lines-Ends :
    (raws : List String) (has_lines : Bool) (number : ℕ) → Ends (scan_lines has_lines number raws)
unfolding scan_lines
scan_lines-Ends [] has_lines number = holds tt
scan_lines-Ends (raw ∷ raws) has_lines number =
    scan_line-Ends has_lines number (strip_comment (expand_tabs raw))
      (λ b. scan_lines b (suc number) raws) (λ b. scan_lines-Ends raws b (suc number))

module _ (float : String → Number) (quoted : String → String) (is_inherited : String → Bool)
    (source : String) where
  parse_yaml-Ensures : Ensures (IsKeyed is_inherited) (parse_yaml float quoted is_inherited source)
  unfolding parse_yaml scan
  parse_yaml-Ensures =
      Ensures-bind (scan_lines-Ends (split_on b'\n' source) false 1)
        λ lines _. parse_lines-Ensures is_inherited float quoted lines

  -- The reader ends on every text: its loops, whose rounds nothing counts, never use up the fuel.
  pub parse_yaml-ends : parse_yaml float quoted is_inherited source ≢ unfinished
  parse_yaml-ends = Ensures-ends parse_yaml-Ensures

  -- In every value that is read, the keys of each mapping are distinct, and none of them is empty or
  -- the name of an inherited property.
  pub parse_yaml-IsKeyed :
      {v : Json} → parse_yaml float quoted is_inherited source ≡ done v → IsKeyed is_inherited v
  parse_yaml-IsKeyed e = Ensures-done parse_yaml-Ensures e
