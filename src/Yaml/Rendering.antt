-- ===== src/Yaml/Rendering.antt =====
-- apps/web/src/lib/yaml-lite.ts: the scanner reads printed rows back as the lines that they are.
use relaydot.Prelude.{
  ℕ, ◌+◌, String, Bool, true, false, ◌≡◌, refl, ap, ◌∙◌, List, [], ◌∷◌, ◌=ˢ◌, trim_start, All,
}
use relaydot.Json.{Json, null, bool, num, str, arr, obj, Items, nil, cons, Fields, end, field}
use relaydot.Yaml.Scalars.{plain, cut_comment}
use relaydot.Yaml.Lines.{leading_spaces}
use relaydot.Yaml.Printer.{
  Row, behind_dash, block_onto, items_onto, item_onto, fields_onto, quote_onto, scalar_text,
  field_text, space_before, IsWritable, AreWritable, HoldsWritable,
}
use relaydot.Yaml.Quoting.{
  IsLine, escape_onto-IsLine, IsTrimmed, cons-IsTrimmed, cut_comment-escape_onto, head-ne,
  second-ne,
}
use relaydot.Yaml.Pieces.{IsScalar, dashed, quote_onto-IsTrimmed}

-- The text of a row, which the scanner takes as it is.
pub record IsRowText (text : String) : Type 0 where
  pub is_line : IsLine text
  pub no_comment : (after_space : Bool) → cut_comment plain after_space text ≡ text
  pub is_trimmed : IsTrimmed text
  pub no_space_before : trim_start text ≡ text
  pub no_indent : leading_spaces text ≡ 0
  pub no_document : (text =ˢ "---") ≡ false
  pub no_end : (text =ˢ "...") ≡ false

quote_onto-no_comment :
    (s rest : String) (after_space : Bool)
    → cut_comment plain after_space (quote_onto s rest)
      ≡ quote_onto s (cut_comment plain false rest)
unfolding quote_onto cut_comment
quote_onto-no_comment s rest after_space =
    ap (String.◌∷◌ "\"") (cut_comment-escape_onto rest s false)

quote_onto-IsRowText :
    (s rest : String)
    → IsLine rest
    → cut_comment plain false rest ≡ rest
    → IsTrimmed (String.◌∷◌ "\"" rest)
    → IsRowText (quote_onto s rest)
unfolding quote_onto
quote_onto-IsRowText s rest line comment trimmed = record {
  is_line = (refl, refl, escape_onto-IsLine (String.◌∷◌ "\"" rest) (refl, refl, line) s);
  no_comment = λ b. quote_onto-no_comment s rest b ∙ ap (quote_onto s) comment;
  is_trimmed = quote_onto-IsTrimmed s rest trimmed;
  no_space_before = refl;
  no_indent = refl;
  no_document = head-ne (quote_onto s rest) "---" refl;
  no_end = head-ne (quote_onto s rest) "..." refl;
}

dashed-IsRowText : (text : String) → IsRowText text → IsRowText (dashed text)
unfolding cut_comment
dashed-IsRowText text h = record {
  is_line = (refl, refl, (refl, refl, h.is_line));
  no_comment = λ b. ap dashed (h.no_comment true);
  is_trimmed = cons-IsTrimmed "-" _ (cons-IsTrimmed " " _ h.is_trimmed);
  no_space_before = refl;
  no_indent = refl;
  no_document = second-ne (dashed text) "---" refl;
  no_end = head-ne (dashed text) "..." refl;
}

scalar_text-IsRowText : (v : Json) → IsScalar v → IsRowText (scalar_text v)
unfolding scalar_text cut_comment
scalar_text-IsRowText null h = record {
  is_line = (refl, refl, (refl, refl, (refl, refl, (refl, refl, tt))));
  no_comment = λ b. refl;
  is_trimmed = record { ends = refl; not_empty = refl };
  no_space_before = refl;
  no_indent = refl;
  no_document = refl;
  no_end = refl;
}
scalar_text-IsRowText (bool true) h = record {
  is_line = (refl, refl, (refl, refl, (refl, refl, (refl, refl, tt))));
  no_comment = λ b. refl;
  is_trimmed = record { ends = refl; not_empty = refl };
  no_space_before = refl;
  no_indent = refl;
  no_document = refl;
  no_end = refl;
}
scalar_text-IsRowText (bool false) h = record {
  is_line = (refl, refl, (refl, refl, (refl, refl, (refl, refl, (refl, refl, tt)))));
  no_comment = λ b. refl;
  is_trimmed = record { ends = refl; not_empty = refl };
  no_space_before = refl;
  no_indent = refl;
  no_document = refl;
  no_end = refl;
}
scalar_text-IsRowText (str s) h =
    quote_onto-IsRowText s "" tt refl (record { ends = refl; not_empty = refl })
scalar_text-IsRowText (num n) h = absurd h
scalar_text-IsRowText (arr items) h = absurd h
scalar_text-IsRowText (obj fields) h = absurd h

dash-IsRowText : IsRowText "-"
unfolding cut_comment
dash-IsRowText = record {
  is_line = (refl, refl, tt);
  no_comment = λ b. refl;
  is_trimmed = record { ends = refl; not_empty = refl };
  no_space_before = refl;
  no_indent = refl;
  no_document = refl;
  no_end = refl;
}

-- What stands behind a key: nothing, or a space and the text of a row.
data IsBehindKey : String → Type 0 where
  block : IsBehindKey ""
  scalar : {t : String} → IsRowText t → IsBehindKey t

scalar_text-IsBehindKey : (v : Json) → IsWritable v → IsBehindKey (scalar_text v)
unfolding IsWritable
scalar_text-IsBehindKey (num n) w = absurd w
scalar_text-IsBehindKey (arr items) w = unfold scalar_text in block
scalar_text-IsBehindKey (obj fields) w = unfold scalar_text in block
scalar_text-IsBehindKey v w = scalar (scalar_text-IsRowText v tt)

space_before-cases : (t : String) → IsTrimmed t → space_before t ≡ String.◌∷◌ " " t
space_before-cases String.[] h = cc (h.not_empty)
space_before-cases (String.◌∷◌ c s) h = refl

field_onto-IsRowText :
    (key t : String) → IsBehindKey t → IsRowText (quote_onto key (String.◌∷◌ ":" (space_before t)))
unfolding cut_comment
field_onto-IsRowText key t block =
    quote_onto-IsRowText key ":" (refl, refl, tt) refl (record { ends = refl; not_empty = refl })
field_onto-IsRowText key t (scalar h) = rw (space_before-cases t h.is_trimmed) (
    quote_onto-IsRowText key (String.◌∷◌ ":" (String.◌∷◌ " " t))
      (refl, refl, (refl, refl, h.is_line))
      (ap (λ u. String.◌∷◌ ":" (String.◌∷◌ " " u)) (h.no_comment true))
      (cons-IsTrimmed "\"" _ (cons-IsTrimmed ":" _ (cons-IsTrimmed " " _ h.is_trimmed))))

field_text-IsRowText : (key : String) (v : Json) → IsWritable v → IsRowText (field_text key v)
unfolding field_text
field_text-IsRowText key v w =
    field_onto-IsRowText key (scalar_text v) (scalar_text-IsBehindKey v w)

abbrev pub AreRows : List Row → Type 0
AreRows = All (λ (row : Row). IsRowText row.1)

behind_dash-AreRows :
    (column : ℕ) (rows : List Row) → AreRows rows → AreRows (behind_dash column rows)
behind_dash-AreRows column [] h = tt
behind_dash-AreRows column ((j, text) ∷ rows) h = (dashed-IsRowText text h.0, h.1)

mutual
  unfolding block_onto IsWritable

  pub block_onto-AreRows :
      (v : Json) (column : ℕ) (rest : List Row)
      → IsWritable v
      → AreRows rest
      → AreRows (block_onto column v rest)
  block_onto-AreRows (arr items) column rest w h = items_onto-AreRows items column rest w.1 h
  block_onto-AreRows (obj fields) column rest w h = fields_onto-AreRows fields column rest w.1 h
  block_onto-AreRows null column rest w h = h
  block_onto-AreRows (bool b) column rest w h = h
  block_onto-AreRows (num n) column rest w h = h
  block_onto-AreRows (str s) column rest w h = h

  item_onto-AreRows :
      (v : Json) (column : ℕ) (rest : List Row)
      → IsWritable v
      → AreRows rest
      → AreRows (item_onto column v rest)
  item_onto-AreRows (arr items) column rest w h =
      (dash-IsRowText, items_onto-AreRows items (column + 2) rest w.1 h)
  item_onto-AreRows (obj fields) column rest w h =
      behind_dash-AreRows column (fields_onto (column + 2) fields rest)
        (fields_onto-AreRows fields (column + 2) rest w.1 h)
  item_onto-AreRows null column rest w h = (dashed-IsRowText _ (scalar_text-IsRowText null tt), h)
  item_onto-AreRows (bool b) column rest w h =
      (dashed-IsRowText _ (scalar_text-IsRowText (bool b) tt), h)
  item_onto-AreRows (str s) column rest w h =
      (dashed-IsRowText _ (scalar_text-IsRowText (str s) tt), h)
  item_onto-AreRows (num n) column rest w h = absurd w

  items_onto-AreRows :
      (vs : Items) (column : ℕ) (rest : List Row)
      → AreWritable vs
      → AreRows rest
      → AreRows (items_onto column vs rest)
  items_onto-AreRows nil column rest w h = h
  items_onto-AreRows (cons v vs) column rest w h =
      item_onto-AreRows v column (items_onto column vs rest) w.0
        (items_onto-AreRows vs column rest w.1 h)

  fields_onto-AreRows :
      (fs : Fields) (column : ℕ) (rest : List Row)
      → HoldsWritable fs
      → AreRows rest
      → AreRows (fields_onto column fs rest)
  fields_onto-AreRows end column rest w h = h
  fields_onto-AreRows (field k v fs) column rest w h = (
    field_text-IsRowText k v w.0,
    block_onto-AreRows v (column + 2) (fields_onto column fs rest) w.0
        (fields_onto-AreRows fs column rest w.1 h),
  )
