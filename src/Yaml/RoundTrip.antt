-- ===== src/Yaml/RoundTrip.antt =====
-- apps/web/src/lib/yaml-lite.ts: a printed document is read back.
use relaydot.Prelude.{
  ℕ, zero, suc, String, Bool, true, false, ◌≡◌, refl, ap, ◌∙◌, is_some, none, subst, List, [], ◌∷◌,
  ◌+ˢ◌, split_on, trim, trim_start, arith,
}
use text.Mathlib.TextLemmas.{nil-append, cons-append}
use relaydot.Json.{
  Number, Json, null, bool, num, str, arr, obj, Items, nil, cons, Fields, end, field,
}
use relaydot.Yaml.{Outcome, done, ◌>>=◌}
use relaydot.Yaml.Scalars.{plain, cut_comment, strip_comment}
use relaydot.Yaml.Lines.{Line, expand_tabs, leading_spaces, scan_line, scan_lines, scan}
use relaydot.Yaml.Printer.{
  Row, indented, render, print, block_onto, items_onto, item_onto, fields_onto, field_text,
  IsWritable,
}
use relaydot.Yaml.Quoting.{IsLine, IsTrimmed, cons-IsTrimmed}
use relaydot.Yaml.Rendering.{IsRowText, AreRows, block_onto-AreRows}
use relaydot.Yaml.Pieces.{item_of-field_text}
use relaydot.Yaml.Rows.{concat_fields, concat_items, numbered, line_at, rows_size, size_of-numbered}
use relaydot.Yaml.Blocks.{parse_node, item_of, size_of, finished, parse_lines, parse_yaml}
use relaydot.Yaml.Replay.{mapping, sequence, ReadsTo, first_of_item}
use relaydot.Yaml.Reread.{mapping_reads, sequence_reads}
use relaydot.Yaml.Keys.{IsKeyed}

-- A row as it stands in the text.
indented-IsLine : (n : ℕ) (t : String) → IsLine t → IsLine (indented n t)
indented-IsLine zero t h = h
indented-IsLine (suc n) t h = (refl, refl, indented-IsLine n t h)

indented-IsTrimmed : (n : ℕ) (t : String) → IsTrimmed t → IsTrimmed (indented n t)
indented-IsTrimmed zero t h = h
indented-IsTrimmed (suc n) t h = cons-IsTrimmed " " _ (indented-IsTrimmed n t h)

cut_comment-indented :
    (n : ℕ) (t : String)
    → ((b : Bool) → cut_comment plain b t ≡ t)
    → (b : Bool) → cut_comment plain b (indented n t) ≡ indented n t
unfolding cut_comment
cut_comment-indented zero t h b = h b
cut_comment-indented (suc n) t h b = ap (String.◌∷◌ " ") (cut_comment-indented n t h true)

trim_start-indented : (n : ℕ) (t : String) → trim_start (indented n t) ≡ trim_start t
trim_start-indented zero t = refl
trim_start-indented (suc n) t = trim_start-indented n t

leading_spaces-indented :
    (n : ℕ) (t : String) → leading_spaces t ≡ 0 → leading_spaces (indented n t) ≡ n
leading_spaces-indented zero t h = h
leading_spaces-indented (suc n) t h = ap suc (leading_spaces-indented n t h)

expand_tabs-IsLine : (s : String) → IsLine s → expand_tabs s ≡ s
expand_tabs-IsLine String.[] h = refl
expand_tabs-IsLine (String.◌∷◌ c s) h = rw (h.1, expand_tabs-IsLine s h.2)

split_on-line :
    (s rest : String)
    → IsLine s
    → split_on b'\n' (s +ˢ String.◌∷◌ "\n" rest) ≡ s ∷ split_on b'\n' rest
split_on-line String.[] rest h = rw nil-append
split_on-line (String.◌∷◌ c s) rest h = rw (cons-append, h.0, split_on-line s rest h.2)

module _ (column : ℕ) (t : String) (h : IsRowText t) where
  strip_comment-row : strip_comment (expand_tabs (indented column t)) ≡ indented column t
  unfolding strip_comment
  strip_comment-row =
      rw
        (
          expand_tabs-IsLine _ (indented-IsLine column t h.is_line),
          cut_comment-indented column t h.no_comment true,
        )
        (indented-IsTrimmed column t h.is_trimmed).ends

  trim-row : trim (indented column t) ≡ t
  trim-row = rw (trim_start-indented column t, h.no_space_before) (h.is_trimmed.ends)

  scan_line-row :
      (has_lines : Bool) (n : ℕ) (later : Bool → Outcome (List Line))
      → scan_line has_lines n (indented column t) later
        ≡ (later true >>= λ lines. done (record { indent = column; text = t; number = n } ∷ lines))
  unfolding scan_line
  scan_line-row has_lines n later = rw (
    trim-row,
    h.is_trimmed.not_empty,
    h.no_document,
    h.no_end,
    leading_spaces-indented column t h.no_indent,
  )

scan_lines-render :
    (rows : List Row) (has_lines : Bool) (n : ℕ)
    → AreRows rows
    → scan_lines has_lines n (split_on b'\n' (render rows)) ≡ done (numbered n rows)
unfolding scan_lines render
scan_lines-render [] has_lines n h = unfold scan_line strip_comment cut_comment in refl
scan_lines-render ((column, text) ∷ rows) has_lines n h =
    rw
      (
        split_on-line (indented column text) (render rows)
            (indented-IsLine column text h.0.is_line),
        strip_comment-row column text h.0,
      )
      (scan_line-row column text h.0 has_lines n
          (λ b. scan_lines b (suc n) (split_on b'\n' (render rows)))
        ∙ rw (scan_lines-render rows true (suc n) h.1))

scan-render : (rows : List Row) → AreRows rows → scan (render rows) ≡ done (numbered 1 rows)
unfolding scan
scan-render rows h = scan_lines-render rows false 1 h

abbrev pub IsBlock : Json → Type 0
IsBlock (arr items) = Unit
IsBlock (obj fields) = Unit
IsBlock _ = ⊥

module _ (float : String → Number) (quoted : String → String) (is_inherited : String → Bool) where
  abbrev node_of : ℕ → Line → List Line → Outcome (Json × List Line)
  node_of fuel line rest =
      parse_node (mapping float quoted is_inherited fuel end)
        (sequence float quoted is_inherited fuel nil) line.indent line rest

  parse_lines-cons :
      (line : Line) (rest : List Line) (v : Json)
      → node_of (suc (size_of (line ∷ rest))) line rest ≡ done (v, [])
      → parse_lines float quoted is_inherited (line ∷ rest) ≡ done v
  unfolding parse_lines
  parse_lines-cons line rest v e = ap (λ r. r >>= finished float quoted is_inherited) e

  object_node :
      (fuel n : ℕ) (text : String) (rows : List Row) (fields : Fields)
      → item_of text ≡ none
      → ReadsTo
          (mapping float quoted is_inherited fuel end 0 (numbered n ((0, text) ∷ rows)))
          fields
          []
      → node_of fuel (line_at n 0 text) (numbered (suc n) rows) ≡ done (obj fields, [])
  object_node fuel n text rows fields e (m, read) = rw (e, read)

  array_node :
      (fuel n : ℕ) (text : String) (rows : List Row) (items : Items)
      → is_some (item_of text) ≡ true
      → ReadsTo
          (sequence float quoted is_inherited fuel nil 0 (numbered n ((0, text) ∷ rows)))
          items
          []
      → node_of fuel (line_at n 0 text) (numbered (suc n) rows) ≡ done (arr items, [])
  array_node fuel n text rows items e (m, read) = rw (e, read)

  parse_lines-rows :
      (text : String) (rows lines : List Row) (v : Json)
      → lines ≡ (0, text) ∷ rows
      → node_of (suc (rows_size ((0, text) ∷ rows))) (line_at 1 0 text) (numbered 2 rows)
        ≡ done (v, [])
      → parse_lines float quoted is_inherited (numbered 1 lines) ≡ done v
  parse_lines-rows text rows lines v e read = rw e (
      parse_lines-cons (line_at 1 0 text) (numbered 2 rows) v
        (rw (size_of-numbered 1 ((0, text) ∷ rows)) read))

  -- The rows of a block, as the reader's loops see them.
  parse_lines-block :
      (v : Json)
      → IsBlock v
      → IsWritable v
      → IsKeyed is_inherited v
      → parse_lines float quoted is_inherited (numbered 1 (block_onto 0 v [])) ≡ done v
  unfolding block_onto IsWritable IsKeyed concat_fields concat_items
  parse_lines-block (arr nil) b w k = absurd (w.0 refl)
  parse_lines-block (arr (cons v vs)) b w k =
      let (text, rows, e, is_item) = first_of_item v 0 (items_onto 0 vs []) w.1.0 in
      let fuel = suc (rows_size ((0, text) ∷ rows)) in
      parse_lines-rows text rows (item_onto 0 v (items_onto 0 vs [])) (arr (cons v vs)) e (
        array_node fuel 1 text rows (cons v vs) is_item (
          subst
            (λ l.
              ReadsTo (sequence float quoted is_inherited fuel nil 0 (numbered 1 l)) (cons v vs) [])
            e
            (sequence_reads float quoted is_inherited (cons v vs) fuel nil 0 1 [] w.1 k
              (omega (arith, ap rows_size e)) tt)))
  parse_lines-block (obj end) b w k = absurd (w.0 refl)
  parse_lines-block (obj (field key v fs)) b w k =
      let rows = block_onto 2 v (fields_onto 0 fs []) in
      let fuel = suc (rows_size ((0, field_text key v) ∷ rows)) in
      parse_lines-rows (field_text key v) rows ((0, field_text key v) ∷ rows) (obj (field key v fs))
        refl
        (object_node fuel 1 (field_text key v) rows (field key v fs) (item_of-field_text key v) (
          mapping_reads float quoted is_inherited (field key v fs) fuel end 0 1 [] w.1 k
            (omega arith) tt))
  parse_lines-block null b w k = absurd b
  parse_lines-block (bool c) b w k = absurd b
  parse_lines-block (num n) b w k = absurd b
  parse_lines-block (str s) b w k = absurd b

  parse_yaml-scan :
      (source : String) (lines : List Line)
      → scan source ≡ done lines
      → parse_yaml float quoted is_inherited source ≡ parse_lines float quoted is_inherited lines
  unfolding parse_yaml
  parse_yaml-scan source lines e = ap (λ r. r >>= parse_lines float quoted is_inherited) e

  -- A document is read back as it was printed, if it is a mapping or a sequence, has no numbers and no
  -- empty block below or at its top, and the keys of each mapping are distinct, none of them empty or
  -- inherited.
  pub parse_yaml-print :
      (v : Json)
      → IsBlock v
      → IsWritable v
      → IsKeyed is_inherited v
      → parse_yaml float quoted is_inherited (print v) ≡ done v
  unfolding print
  parse_yaml-print v b w k =
      parse_yaml-scan (print v) (numbered 1 (block_onto 0 v []))
        (scan-render (block_onto 0 v []) (block_onto-AreRows v 0 [] w tt))
      ∙ parse_lines-block v b w k
