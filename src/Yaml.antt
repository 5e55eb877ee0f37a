-- ===== src/Yaml.antt =====
-- apps/web/src/lib/yaml-lite.ts: the reader of the configuration file. Yaml/Scalars: comments,
-- quotes, scalars and keys. Yaml/Lines: the lines of a text. Yaml/Blocks: mappings, sequences and
-- whole documents. What is read is a value of Json; a mapping keeps the order of the text.
--
-- `float` is `Number.parseFloat`, `quoted` is `JSON.stringify` of a text, `show` prints a number, and
-- `is_inherited` says which names `key in {}` finds on an object with no fields of its own.
pub mod Scalars
pub mod Lines
pub mod Blocks
mod Outcomes
mod Keys
mod Entries
mod Rounds
mod Reading
mod Printer
mod Quoting
mod Pieces
mod Rows
mod Replay
mod Reread
mod Rendering
mod RoundTrip
mod Tests
use relaydot.Prelude.{ℕ, String}

-- A `YamlError`: its message, before the line is put in, and the line.
pub record YamlError : Type 0 where
  pub message : String
  pub line : ℕ

-- `unfinished` has no counterpart in the program: a loop has used up its fuel.
pub data Outcome {ℓ} (A : Type ℓ) : Type ℓ where
  done : A → Outcome A
  thrown : YamlError → Outcome A
  unfinished : Outcome A

abbrev pub fail {ℓ} : {A : Type ℓ} → String → ℕ → Outcome A
fail message line = thrown (record { message = message; line = line })

infixl 10 ◌>>=◌
abbrev pub ◌>>=◌ {ℓ κ} : {A : Type ℓ} {B : Type κ} → Outcome A → (A → Outcome B) → Outcome B
done a >>= f = f a
thrown e >>= f = thrown e
unfinished >>= f = unfinished
