-- ===== src/Yaml/Rounds.antt =====
-- apps/web/src/lib/yaml-lite.ts: one round of the loops, given the loops for the rounds after it.
use relaydot.Prelude.{ℕ, suc, ◌≤◌, String, Bool, ◌≡◌, refl, Option, none, some, List, ◌∷◌, arith}
use relaydot.Json.{Number, Items, nil, Fields, end}
use relaydot.Yaml.Lines.{Line}
use relaydot.Yaml.Blocks.{
  item_of, append_field, append_item, Parser, size_of, mapping_step, item_step, sequence_step,
}
use relaydot.Yaml.Outcomes.{Ensures-map, if-Ensures, Ensures-bind, holds}
use relaydot.Yaml.Keys.{
  AreKeyed, IsMapping, item_of-characters, append_field-IsMapping, append_item-AreKeyed,
}
use relaydot.Yaml.Entries.{Within, IsSound, mapping_entry-Within, sequence_entry-Within}

module _ (is_inherited : String → Bool) (float : String → Number) (quoted : String → String)
    (mapping : Fields → Parser Fields) (sequence : Items → Parser Items) (n : ℕ)
    (mapping-IsSound : (fields : Fields)
      → IsMapping is_inherited fields
      → IsSound (IsMapping is_inherited) n (mapping fields))
    (sequence-IsSound : (items : Items)
      → AreKeyed is_inherited items
      → IsSound (AreKeyed is_inherited) n (sequence items)) where
  pub mapping_step-Within :
      (fields : Fields) (indent : ℕ) (line : Line) (rest : List Line)
      → IsMapping is_inherited fields
      → size_of (line ∷ rest) ≤ suc n
      → Within
          (IsMapping is_inherited)
          (size_of (line ∷ rest))
          (mapping_step float quoted is_inherited mapping sequence fields indent line rest)
  unfolding mapping_step IsMapping
  mapping_step-Within fields indent line rest h le =
      if-Ensures _ _ _
        (Ensures-bind
          (mapping_entry-Within is_inherited float quoted (mapping end) (sequence nil) n
            (mapping-IsSound end tt) (sequence-IsSound nil tt) indent fields line rest
            (omega arith))
          λ (entry, left) p.
            Ensures-map
              (mapping-IsSound (append_field fields entry.0 entry.1)
                (append_field-IsMapping is_inherited fields entry.0 entry.1 h p.0.0 p.0.1 p.0.2)
                indent left (omega (arith, p.1)))
              λ (all, after) q. (q.0, omega (arith, p.1, q.1)))
        (holds (h, omega arith))

  item_step-Within :
      (items : Items) (indent : ℕ) (line : Line) (rest : List Line) (o : Option String)
      → item_of line.text ≡ o
      → AreKeyed is_inherited items
      → size_of (line ∷ rest) ≤ suc n
      → Within
          (AreKeyed is_inherited)
          (size_of (line ∷ rest))
          (item_step float quoted is_inherited mapping sequence items indent line rest o)
  item_step-Within items indent line rest none e h le = holds (h, omega arith)
  item_step-Within items indent line rest (some text) e h le =
      Ensures-bind
        (sequence_entry-Within is_inherited float quoted (mapping end) (sequence nil) n
          (mapping-IsSound end (unfold IsMapping in tt))
          (sequence-IsSound nil (unfold IsMapping in tt)) indent line rest text (omega arith)
          (omega (arith, item_of-characters line.text text e)))
        λ (v, left) p.
          Ensures-map
            (sequence-IsSound (append_item items v)
              (append_item-AreKeyed is_inherited items v h p.0) indent left
              (omega (arith, p.1, item_of-characters line.text text e)))
            λ (all, after) q. (q.0, omega (arith, p.1, q.1, item_of-characters line.text text e))

  pub sequence_step-Within :
      (items : Items) (indent : ℕ) (line : Line) (rest : List Line)
      → AreKeyed is_inherited items
      → size_of (line ∷ rest) ≤ suc n
      → Within
          (AreKeyed is_inherited)
          (size_of (line ∷ rest))
          (sequence_step float quoted is_inherited mapping sequence items indent line rest)
  unfolding sequence_step
  sequence_step-Within items indent line rest h le =
      if-Ensures _ _ _ (item_step-Within items indent line rest (item_of line.text) refl h le)
        (holds (h, omega arith))
