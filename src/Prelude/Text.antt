-- ===== src/Prelude/Text.antt =====
-- The methods of texts that the program calls, by recursion on the characters.
use Prim.Native.Char.{Char, code}
use Prim.Native.Nat.{ℕ}
use Prim.Native.String.{String, ◌++◌ as ◌+ˢ◌}
use mathlib.Core.Bool.{Bool, ◌&&◌, ◌||◌}
use mathlib.Core.Option.{Option, none, some}
use mathlib.Core.List.{List, [], ◌∷◌}
use text.Mathlib.Text.{◌==◌ as ◌=ˢ◌}
use relaydot.Prelude.Tests.{leb, ◌==◌, if◌then◌else◌}
use relaydot.Prelude.Rows.{any}

abbrev prepend : Char → List String → List String
prepend c [] = []
prepend c (s ∷ ss) = String.◌∷◌ c s ∷ ss

-- `s.split(separator)` for a separator of one character, by its code.
abbrev pub split_on : ℕ → String → List String
split_on separator String.[] = "" ∷ []
split_on separator (String.◌∷◌ c s) =
    let rest = split_on separator s in if code c == separator then "" ∷ rest else prepend c rest

-- The characters that `trim` takes for white space.
abbrev pub is_space : Char → Bool
is_space c =
    let n = code c in
    any (λ k. n == k) (32 ∷ 160 ∷ 5760 ∷ 8232 ∷ 8233 ∷ 8239 ∷ 8287 ∷ 12288 ∷ 65279 ∷ [])
    || leb 9 n && leb n 13
    || leb 8192 n && leb n 8202

abbrev pub trim_start : String → String
trim_start String.[] = ""
trim_start (String.◌∷◌ c s) = let rest = trim_start s in if is_space c then rest else String.◌∷◌ c s

abbrev pub trim_end : String → String
trim_end String.[] = ""
trim_end (String.◌∷◌ c s) =
    let rest = trim_end s in if rest =ˢ "" && is_space c then "" else String.◌∷◌ c rest

abbrev pub trim : String → String
trim s = trim_end (trim_start s)

abbrev pub ends_with : String → String → Bool
ends_with String.[] suffix = suffix =ˢ ""
ends_with (String.◌∷◌ c s) suffix = String.◌∷◌ c s =ˢ suffix || ends_with s suffix

-- `s.replace(/suffix$/, "")`.
abbrev pub strip_suffix : String → String → String
strip_suffix String.[] suffix = ""
strip_suffix (String.◌∷◌ c s) suffix =
    let rest = strip_suffix s suffix in if String.◌∷◌ c s =ˢ suffix then "" else String.◌∷◌ c rest

-- `parts.pop() ?? path`.
abbrev pub last_or : String → List String → String
last_or path [] = path
last_or path (s ∷ ss) = last_or s ss

-- `parts[0]`.
abbrev pub first_or : String → List String → String
first_or fallback [] = fallback
first_or fallback (s ∷ ss) = s

abbrev add_left : Char → Option (String × String) → Option (String × String)
add_left c none = none
add_left c (some (left, right)) = some (String.◌∷◌ c left, right)

-- The texts on both sides of the first separator: `none` where `indexOf` gives -1.
abbrev pub cut_at : ℕ → String → Option (String × String)
cut_at separator String.[] = none
cut_at separator (String.◌∷◌ c s) =
    let rest = cut_at separator s in if code c == separator then some ("", s) else add_left c rest

-- `parts.join(separator)`.
abbrev pub join : String → List String → String
join separator [] = ""
join separator (s ∷ []) = s
join separator (s ∷ t ∷ ss) = s +ˢ separator +ˢ join separator (t ∷ ss)
