-- ===== src/Yaml/Quoting.antt =====
-- apps/web/src/lib/yaml-lite.ts: what the loops over characters make of a text in double quotes.
use Prim.Native.Char.{Char, code}
use relaydot.Prelude.{
  ℕ, String, Bool, true, false, ◌≡◌, refl, sym, ap, ◌∙◌, ◌≢◌, ◌⊎◌, inl, inr, none, some, ◌=ˢ◌, ◌==◌,
  eq_iff, is_space, trim_end, arith, Bool-cases,
}
use text.Mathlib.TextEquality.{Char-path}
use relaydot.Yaml.{done}
use relaydot.Yaml.Scalars.{
  plain, within, escape_of, unescape, split_last, find_key_end, cut_comment, unquote,
}
use relaydot.Yaml.Printer.{escape_letter, escape_onto}

==-eq : (a b : ℕ) → (a == b) ≡ true → a ≡ b
==-eq a b h = ground arith

-- A character that stands for itself between double quotes.
record IsBare (c : Char) : Type 0 where
  not_quote : (code c == b'"') ≡ false
  not_backslash : (code c == b'\\') ≡ false
  not_break : (code c == b'\n') ≡ false
  not_tab : (code c == b'\t') ≡ false

record Escapes (letter c : Char) : Type 0 where
  stands_for : escape_of letter ≡ some c
  not_break : (code letter == b'\n') ≡ false
  not_tab : (code letter == b'\t') ≡ false

letter_of :
    (letter c d : Char)
    → code c ≡ code d
    → escape_of letter ≡ some d
    → (code letter == b'\n') ≡ false
    → (code letter == b'\t') ≡ false
    → Escapes letter c
letter_of letter c d e s b t = record {
  stands_for = s ∙ ap some (sym (Char-path c d e));
  not_break = b;
  not_tab = t;
}

escape_letter-cases :
    (c : Char)
    → ((escape_letter c ≡ none) × IsBare c)
      ⊎ ((letter : Char) × (escape_letter c ≡ some letter) × Escapes letter c)
escape_letter-cases c = elim (Bool-cases (code c == b'"')) [
  | inl q ↦ inr ("\"", rw q, letter_of "\"" c "\"" (==-eq _ _ q) refl refl refl)
  | inr q ↦ elim (Bool-cases (code c == b'\\')) [
    | inl k ↦ inr ("\\", rw (q, k), letter_of "\\" c "\\" (==-eq _ _ k) refl refl refl)
    | inr k ↦ elim (Bool-cases (code c == b'\n')) [
      | inl n ↦ inr ("n", rw (q, k, n), letter_of "n" c "\n" (==-eq _ _ n) refl refl refl)
      | inr n ↦ elim (Bool-cases (code c == b'\r')) [
        | inl r ↦ inr ("r", rw (q, k, n, r), letter_of "r" c "\r" (==-eq _ _ r) refl refl refl)
        | inr r ↦ elim (Bool-cases (code c == b'\t')) [
          | inl t ↦ inr ("t", rw (q, k, n, r, t), letter_of "t" c "\t" (==-eq _ _ t) refl refl refl)
          | inr t ↦ inl (
            rw (q, k, n, r, t),
            record { not_quote = q; not_backslash = k; not_break = n; not_tab = t },
          )
        ]
      ]
    ]
  ]
]

-- What holds of the end, and is kept by a bare character and by an escape, holds of a quoted text.
escape_onto-induction {ℓ} :
    (P : String → String → Type ℓ) (rest : String)
    → P "" rest
    → ((c : Char) (s t : String) → IsBare c → P s t → P (String.◌∷◌ c s) (String.◌∷◌ c t))
    → ((letter c : Char) (s t : String)
        → Escapes letter c
        → P s t
        → P (String.◌∷◌ c s) (String.◌∷◌ "\\" (String.◌∷◌ letter t)))
    → (s : String) → P s (escape_onto s rest)
unfolding escape_onto
escape_onto-induction P rest base bare esc String.[] = base
escape_onto-induction P rest base bare esc (String.◌∷◌ c s) = elim (escape_letter-cases c) [
  | inl (e, b) ↦
      rw e (bare c s (escape_onto s rest) b (escape_onto-induction P rest base bare esc s))
  | inr (letter, e, b) ↦
      rw e (esc letter c s (escape_onto s rest) b (escape_onto-induction P rest base bare esc s))
]

split_last-escape_onto :
    (s : String) (last : Char)
    → split_last (escape_onto s (String.◌∷◌ last "")) ≡ some (escape_onto s "", last)
unfolding escape_onto
split_last-escape_onto String.[] last = refl
split_last-escape_onto (String.◌∷◌ c s) last = elim (escape_letter-cases c) [
  | inl (e, b) ↦ rw (e, split_last-escape_onto s last)
  | inr (letter, e, b) ↦ rw (e, split_last-escape_onto s last)
]

unescape-escape_onto : (s : String) → unescape false (escape_onto s "") ≡ s
unescape-escape_onto =
    escape_onto-induction (λ s t. unescape false t ≡ s) "" refl
      (λ c s t b ih. rw (b.not_backslash, ih)) (λ letter c s t b ih. rw (b.stands_for, ih))

pub unquote-quote_onto : (s : String) (line : ℕ) → unquote "\"" (escape_onto s "\"") line ≡ done s
unfolding unquote
unquote-quote_onto s line = rw split_last-escape_onto (ap done (unescape-escape_onto s))

-- Within double quotes the scanners pass over every character up to the closing quote.
pub find_key_end-escape_onto :
    (rest t : String) (s : String)
    → find_key_end plain rest ≡ some ("", t)
    → find_key_end (within b'"') (escape_onto s (String.◌∷◌ "\"" rest))
      ≡ some (escape_onto s "\"", t)
unfolding escape_onto find_key_end
find_key_end-escape_onto rest t String.[] h = rw h
find_key_end-escape_onto rest t (String.◌∷◌ c s) h = elim (escape_letter-cases c) [
  | inl (e, b) ↦ rw (e, b.not_backslash, b.not_quote, find_key_end-escape_onto rest t s h)
  | inr (letter, e, b) ↦ rw (e, find_key_end-escape_onto rest t s h)
]

pub find_key_end-unclosed : (s : String) → find_key_end (within b'"') (escape_onto s "\"") ≡ none
unfolding find_key_end
find_key_end-unclosed =
    escape_onto-induction (λ s t. find_key_end (within b'"') t ≡ none) "\"" refl
      (λ c s t b ih. rw (b.not_backslash, b.not_quote, ih)) (λ letter c s t b ih. rw ih)

pub cut_comment-escape_onto :
    (rest : String) (s : String) (after_space : Bool)
    → cut_comment (within b'"') after_space (escape_onto s (String.◌∷◌ "\"" rest))
      ≡ escape_onto s (String.◌∷◌ "\"" (cut_comment plain false rest))
unfolding escape_onto cut_comment
cut_comment-escape_onto rest String.[] after_space = refl
cut_comment-escape_onto rest (String.◌∷◌ c s) after_space = elim (escape_letter-cases c) [
  | inl (e, b) ↦ rw (e, b.not_backslash, b.not_quote, cut_comment-escape_onto rest s (is_space c))
  | inr (letter, e, b) ↦ rw (e, cut_comment-escape_onto rest s (is_space letter))
]

pub ne-false : (s t : String) → s ≢ t → (s =ˢ t) ≡ false
ne-false s t h = elim (Bool-cases (s =ˢ t)) [ inl e ↦ absurd (h ((eq_iff s t).0 e)) | inr e ↦ e ]

-- The code of the first character, and of the second.
abbrev pub head : String → ℕ
head String.[] = 0
head (String.◌∷◌ c s) = code c

abbrev pub tail : String → String
tail String.[] = ""
tail (String.◌∷◌ c s) = s

-- Texts whose first or second characters differ.
pub head-ne : (s t : String) → (head s == head t) ≡ false → (s =ˢ t) ≡ false
head-ne s t h = ne-false s t (λ e. ground (arith, ap head e))

pub second-ne : (s t : String) → (head (tail s) == head (tail t)) ≡ false → (s =ˢ t) ≡ false
second-ne s t h = ne-false s t (λ e. ground (arith, ap (λ u. head (tail u)) e))

pub cons-ne-empty : (c : Char) (s : String) → (String.◌∷◌ c s =ˢ "") ≡ false
cons-ne-empty c s = ne-false _ _ cc

-- A text that ends with no white space ends with none after more characters either.
pub record IsTrimmed (s : String) : Type 0 where
  pub ends : trim_end s ≡ s
  pub not_empty : (s =ˢ "") ≡ false

pub cons-IsTrimmed : (c : Char) (s : String) → IsTrimmed s → IsTrimmed (String.◌∷◌ c s)
cons-IsTrimmed c s h = record { ends = rw (h.ends, h.not_empty); not_empty = cons-ne-empty c s }

pub escape_onto-IsTrimmed :
    (rest : String) → IsTrimmed rest → (s : String) → IsTrimmed (escape_onto s rest)
escape_onto-IsTrimmed rest h =
    escape_onto-induction (λ s t. IsTrimmed t) rest h (λ c s t b ih. cons-IsTrimmed c t ih)
      (λ letter c s t b ih. cons-IsTrimmed "\\" (String.◌∷◌ letter t) (cons-IsTrimmed letter t ih))

-- No line break and no tab.
abbrev pub IsLine : String → Type 0
IsLine String.[] = Unit
IsLine (String.◌∷◌ c s) = ((code c == b'\n') ≡ false) × ((code c == b'\t') ≡ false) × IsLine s

pub escape_onto-IsLine : (rest : String) → IsLine rest → (s : String) → IsLine (escape_onto s rest)
escape_onto-IsLine rest h =
    escape_onto-induction (λ s t. IsLine t) rest h (λ c s t b ih. (b.not_break, b.not_tab, ih))
      (λ letter c s t b ih. (refl, refl, (b.not_break, b.not_tab, ih)))
