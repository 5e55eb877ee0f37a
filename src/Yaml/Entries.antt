-- ===== src/Yaml/Entries.antt =====
-- apps/web/src/lib/yaml-lite.ts: one entry of a mapping or a sequence, given the loops for the blocks
-- below it.
use relaydot.Prelude.{
  ℕ, suc, ◌+◌, ◌≤◌, String, Bool, false, ◌≡◌, ◌≢◌, inl, inr, List, [], ◌∷◌, arith, Bool-cases,
}
use relaydot.Json.{Number, Json, Items, Fields}
use relaydot.Yaml.{Outcome, done, ◌>>=◌}
use relaydot.Yaml.Scalars.{scalar}
use relaydot.Yaml.Lines.{Line}
use relaydot.Yaml.Blocks.{
  Parser, parse_node, parse_child, injected, characters, size_of, value_of, is_taken, mapping_entry,
  sequence_entry, entry_of,
}
use relaydot.Yaml.Outcomes.{Ensures-map, if-Ensures, Ensures-bind, Ensures, holds, threw}
use relaydot.Yaml.Keys.{
  IsKeyed, AreKeyed, IsMapping, split_key-Ensures, Keyed, null-Keyed, scalar-Ensures,
}

-- A run of a parser that leaves no more than `n`, with `P` of what it reads.
abbrev pub Within {ℓ} : {A : Type 0} → (A → Type ℓ) → ℕ → Outcome (A × List Line) → Type ℓ
Within P n r = Ensures (λ p. P p.0 × (size_of p.1 ≤ n)) r

-- So on all lines up to a size.
abbrev pub IsSound : {A : Type 0} → (A → Type 0) → ℕ → Parser A → Type 0
IsSound P n parser =
    (indent : ℕ) (lines : List Line)
    → size_of lines ≤ n
    → Within P (size_of lines) (parser indent lines)

module _ (is_inherited : String → Bool) (float : String → Number) (quoted : String → String)
    (mapping : Parser Fields) (sequence : Parser Items) (n : ℕ)
    (mapping-IsSound : IsSound (IsMapping is_inherited) n mapping)
    (sequence-IsSound : IsSound (AreKeyed is_inherited) n sequence) where
  pub parse_node-Within :
      (indent : ℕ) (line : Line) (rest : List Line)
      → size_of (line ∷ rest) ≤ n
      → Within
          (Keyed is_inherited)
          (size_of (line ∷ rest))
          (parse_node mapping sequence indent line rest)
  unfolding IsKeyed
  parse_node-Within indent line rest h =
      if-Ensures _ _ _
        (Ensures-bind (sequence-IsSound indent (line ∷ rest) h) λ (items, left) p. holds (p.0, p.1))
        (Ensures-bind (mapping-IsSound indent (line ∷ rest) h) λ (fields, left) p. holds (p.0, p.1))

  parse_child-Within :
      (indent : ℕ) (lines : List Line)
      → size_of lines ≤ n
      → Within (Keyed is_inherited) (size_of lines) (parse_child mapping sequence indent lines)
  parse_child-Within indent [] h = holds (null-Keyed is_inherited, omega arith)
  parse_child-Within indent (next ∷ rest) h =
      if-Ensures _ _ _ (holds (null-Keyed is_inherited, omega arith))
        (parse_node-Within next.indent next rest h)

  scalar-Within :
      (text : String) (line : ℕ) (rest : List Line)
      → Within (Keyed is_inherited) (size_of rest) (scalar float text line >>= λ v. done (v, rest))
  scalar-Within text line rest =
      Ensures-bind (scalar-Ensures is_inherited float text line) λ v k. holds (k, omega arith)

  value_of-Within :
      (indent : ℕ) (line : Line) (text : String) (rest : List Line)
      → size_of rest ≤ n
      → Within
          (Keyed is_inherited)
          (size_of rest)
          (value_of float quoted is_inherited mapping sequence indent line text rest)
  value_of-Within indent line text rest h =
      if-Ensures _ _ _ (parse_child-Within indent rest h) (scalar-Within text line.number rest)

  abbrev IsFresh : Fields → (String × Json) → Type 0
  IsFresh fields entry =
      (entry.0 ≢ "") × (is_taken is_inherited entry.0 fields ≡ false) × Keyed is_inherited entry.1

  entry_of-Within :
      (indent : ℕ) (fields : Fields) (line : Line) (rest : List Line) (key text : String)
      → size_of rest ≤ n
      → key ≢ ""
      → Within
          (IsFresh fields)
          (size_of rest)
          (entry_of float quoted is_inherited mapping sequence indent fields line rest (key, text))
  entry_of-Within indent fields line rest key text h ne =
      elim (Bool-cases (is_taken is_inherited key fields)) [
        | inl e ↦ rw e threw
        | inr e ↦ rw e (
            Ensures-bind (value_of-Within indent line text rest h)
              λ (v, left) p. holds ((ne, e, p.0), p.1))
      ]

  pub mapping_entry-Within :
      (indent : ℕ) (fields : Fields) (line : Line) (rest : List Line)
      → size_of rest ≤ n
      → Within
          (IsFresh fields)
          (size_of rest)
          (mapping_entry float quoted is_inherited mapping sequence indent fields line rest)
  mapping_entry-Within indent fields line rest h = if-Ensures _ _ _ threw (
      Ensures-bind (split_key-Ensures quoted line.text line.number)
        λ (key, text) ne. entry_of-Within indent fields line rest key text h ne)

  pub sequence_entry-Within :
      (indent : ℕ) (line : Line) (rest : List Line) (text : String)
      → size_of rest ≤ n
      → suc (characters text) + size_of rest ≤ n
      → Within
          (Keyed is_inherited)
          (suc (characters text) + size_of rest)
          (sequence_entry float quoted is_inherited mapping sequence indent line rest text)
  unfolding IsKeyed
  sequence_entry-Within indent line rest text h h' =
      if-Ensures _ _ _
        (Ensures-map (parse_child-Within indent rest h) λ (v, left) p. (p.0, omega (arith, p.1)))
        (if-Ensures _ _ _
          (Ensures-bind (mapping-IsSound (indent + 2) (injected indent line text ∷ rest) h')
            λ (fields, left) p. holds (p.0, p.1))
          (Ensures-map (scalar-Within text line.number rest)
            λ (v, left) p. (p.0, omega (arith, p.1))))
