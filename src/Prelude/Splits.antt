-- ===== src/Prelude/Splits.antt =====
-- Texts that are cut at a separator which their parts lack.
use Prim.Native.Char.{Char, code}
use Prim.Native.Nat.{ℕ}
use Prim.Native.String.{String, ◌++◌ as ◌+ˢ◌}
use mathlib.Core.Bool.{true, false}
use mathlib.Core.Option.{some}
use mathlib.Core.List.{[], ◌∷◌}
use mathlib.Core.Path.{◌≡◌, refl}
use text.Mathlib.TextLemmas.{nil-append, cons-append}
use relaydot.Prelude.Tests.{◌==◌}
use relaydot.Prelude.Text.{split_on, cut_at}

-- No character of the text has the code `n`.
abbrev pub Lacks : ℕ → String → Type 0
Lacks n String.[] = Unit {0}
Lacks n (String.◌∷◌ c s) = ((code c == n) ≡ false) × Lacks n s

pub append-Lacks : (n : ℕ) (s t : String) → Lacks n s → Lacks n t → Lacks n (s +ˢ t)
append-Lacks n String.[] t h k = rw nil-append k
append-Lacks n (String.◌∷◌ c s) t h k = rw cons-append (h.0, append-Lacks n s t h.1 k)

module _ (n : ℕ) (separator : Char) (is_separator : (code separator == n) ≡ true) where
  pub split_on-part :
      (s rest : String)
      → Lacks n s
      → split_on n (s +ˢ String.◌∷◌ separator rest) ≡ s ∷ split_on n rest
  split_on-part String.[] rest h = rw (nil-append, is_separator)
  split_on-part (String.◌∷◌ c s) rest h = rw (cons-append, h.0, split_on-part s rest h.1)

  pub cut_at-part :
      (s rest : String) → Lacks n s → cut_at n (s +ˢ String.◌∷◌ separator rest) ≡ some (s, rest)
  cut_at-part String.[] rest h = rw (nil-append, is_separator)
  cut_at-part (String.◌∷◌ c s) rest h = rw (cons-append, h.0, cut_at-part s rest h.1)

pub split_on-last : (n : ℕ) (s : String) → Lacks n s → split_on n s ≡ s ∷ []
split_on-last n String.[] h = refl
split_on-last n (String.◌∷◌ c s) h = rw (h.0, split_on-last n s h.1)
