-- ===== src/Yaml/Keys.antt =====
-- apps/web/src/lib/yaml-lite.ts: the keys of what is read, and scalars and keys, which are always read
-- or refused.
use Prim.Native.Char.{Char, code}
use relaydot.Prelude.{
  ℕ, suc, ◌≤◌, ◌<◌, String, Bool, true, false, ◌≡◌, refl, ◌≢◌, inl, inr, Option, none, some, ◌=ˢ◌,
  eq_iff, is_space, trim, trim_start, trim_end, if◌then◌else◌, arith, Bool-cases, subst, ◌&&◌, ◌==◌,
}
use relaydot.Json.{
  Number, Json, null, bool, num, str, arr, obj, Items, nil, cons, Fields, end, field, get,
}
use relaydot.Yaml.Scalars.{
  unquote_body, unquote, split_last, scalar_from, trimmed_scalar, plain_scalar, scalar, key_of,
  named, split_at, split_key, find_key_end, plain,
}
use relaydot.Yaml.Blocks.{item_of, append_field, append_item, characters, is_taken}
use relaydot.Yaml.Outcomes.{if-Ensures, Ensures-bind, Ends, Ensures, holds, threw}

unquote_body-Ends :
    (c : Char) (line : ℕ) (o : Option (String × Char)) → Ends (unquote_body c line o)
unquote_body-Ends c line none = threw
unquote_body-Ends c line (some (body, last)) = if-Ensures _ _ _ (holds tt) threw

unquote-Ends : (c : Char) (s : String) (line : ℕ) → Ends (unquote c s line)
unfolding unquote
unquote-Ends c s line = unquote_body-Ends c line (split_last s)

-- Every mapping has distinct keys, none of them empty or inherited.
module _ (is_inherited : String → Bool) where
  unfoldable mutual
    pub IsKeyed : Json → Type 0
    IsKeyed (arr items) = AreKeyed items
    IsKeyed (obj fields) = IsMapping fields
    IsKeyed _ = Unit

    pub AreKeyed : Items → Type 0
    AreKeyed nil = Unit
    AreKeyed (cons v vs) = IsKeyed v × AreKeyed vs

    pub IsMapping : Fields → Type 0
    IsMapping end = Unit
    IsMapping (field k v fs) =
        (k ≢ "") × (is_inherited k ≡ false) × (get k fs ≡ none) × IsKeyed v × IsMapping fs

trim_start-characters : (s : String) → characters (trim_start s) ≤ characters s
trim_start-characters String.[] = omega arith
trim_start-characters (String.◌∷◌ c s) = ground (arith, trim_start-characters s)

trim_end-characters : (s : String) → characters (trim_end s) ≤ characters s
trim_end-characters String.[] = omega arith
trim_end-characters (String.◌∷◌ c s) = elim (Bool-cases (trim_end s =ˢ "" && is_space c)) [
  | inl e ↦ rw e (omega arith)
  | inr e ↦ rw e (omega (arith, trim_end-characters s))
]

trim-characters : (s : String) → characters (trim s) ≤ characters s
trim-characters s = omega (arith, trim_start-characters s, trim_end-characters (trim_start s))

some_inj : {s t : String} → some s ≡ some t → s ≡ t
some_inj e = cc

-- The text of an item is shorter than its line.
pub item_of-characters : (s t : String) → item_of s ≡ some t → characters t < characters s
item_of-characters String.[] t e = cc
item_of-characters (String.◌∷◌ c String.[]) t e = elim (Bool-cases (code c == b'-')) [
  | inl q ↦ subst (λ u. characters u < 1) (some_inj (rw q at e)) (omega arith)
  | inr q ↦ cc (rw q at e)
]
item_of-characters (String.◌∷◌ c (String.◌∷◌ d s)) t e =
    elim (Bool-cases (code c == b'-' && code d == b' ')) [
      | inl q ↦
          subst (λ u. characters u < suc (suc (characters s))) (some_inj (rw q at e))
            (omega (arith, trim-characters s))
      | inr q ↦ cc (rw q at e)
    ]

key_of-Ends : (s : String) (line : ℕ) → Ends (key_of s line)
key_of-Ends String.[] line = holds tt
key_of-Ends (String.◌∷◌ c s) line = if-Ensures _ _ _ (unquote-Ends c s line) (holds tt)

named-Ensures :
    (rest key : String) (line : ℕ)
    → Ensures (λ (p : String × String). p.0 ≢ "") (named rest line key)
named-Ensures rest key line = elim (Bool-cases (key =ˢ "")) [
  | inl e ↦ rw e threw
  | inr e ↦ rw e (holds (λ p. ground (arith, eq_iff key "")))
]

split_at-Ensures :
    (quoted : String → String) (text : String) (line : ℕ) (o : Option (String × String))
    → Ensures (λ p. p.0 ≢ "") (split_at quoted text line o)
split_at-Ensures quoted text line none = threw
split_at-Ensures quoted text line (some (raw, rest)) =
    Ensures-bind (key_of-Ends (trim raw) line) (λ key _. named-Ensures rest key line)

pub split_key-Ensures :
    (quoted : String → String) (text : String) (line : ℕ)
    → Ensures (λ p. p.0 ≢ "") (split_key quoted text line)
unfolding split_key
split_key-Ensures quoted text line = split_at-Ensures quoted text line (find_key_end plain text)

get-append_field :
    (j k : String) (v : Json) (fs : Fields)
    → get j fs ≡ none
    → (k =ˢ j) ≡ false
    → get j (append_field fs k v) ≡ none
get-append_field j k v end h e = rw e
get-append_field j k v (field i w fs) h e = ground (arith, get-append_field j k v fs)

module _ (is_inherited : String → Bool) where
  abbrev pub Keyed : Json → Type 0
  Keyed = IsKeyed is_inherited

  pub append_field-IsMapping :
      (fs : Fields) (k : String) (v : Json)
      → IsMapping is_inherited fs
      → k ≢ ""
      → is_taken is_inherited k fs ≡ false
      → Keyed v
      → IsMapping is_inherited (append_field fs k v)
  unfolding IsMapping
  append_field-IsMapping end k v h ne free kv = (ne, ground arith, refl, kv, tt)
  append_field-IsMapping (field j w fs) k v h ne free kv = (
    h.0,
    h.1,
    get-append_field j k v fs h.2 (ground (arith, eq_iff k j, eq_iff j k)),
    h.3,
    append_field-IsMapping fs k v h.4 ne (ground arith) kv,
  )

  pub append_item-AreKeyed :
      (vs : Items) (v : Json)
      → AreKeyed is_inherited vs
      → Keyed v
      → AreKeyed is_inherited (append_item vs v)
  unfolding AreKeyed
  append_item-AreKeyed nil v h kv = (kv, tt)
  append_item-AreKeyed (cons w vs) v h kv = (h.0, append_item-AreKeyed vs v h.1 kv)

  if-Keyed : (b : Bool) (x y : Json) → Keyed x → Keyed y → Keyed (if b then x else y)
  if-Keyed true x y hx hy = hx
  if-Keyed false x y hx hy = hy

  pub null-Keyed : Keyed null
  unfolding IsKeyed
  null-Keyed = tt

  bool-Keyed : (b : Bool) → Keyed (bool b)
  unfolding IsKeyed
  bool-Keyed b = tt

  num-Keyed : (n : Number) → Keyed (num n)
  unfolding IsKeyed
  num-Keyed n = tt

  str-Keyed : (s : String) → Keyed (str s)
  unfolding IsKeyed
  str-Keyed s = tt

  module _ (float : String → Number) where
    plain_scalar-Keyed : (s : String) → Keyed (plain_scalar float s)
    unfolding plain_scalar
    plain_scalar-Keyed s = if-Keyed _ _ _ (bool-Keyed true) (
        if-Keyed _ _ _ (bool-Keyed false)
          (if-Keyed _ _ _ (num-Keyed _) (if-Keyed _ _ _ (num-Keyed (float s)) (str-Keyed s))))

    scalar_from-Ensures :
        (c : Char) (s : String) (line : ℕ) → Ensures Keyed (scalar_from float c s line)
    unfolding scalar_from
    scalar_from-Ensures c s line = if-Ensures _ _ _ (holds null-Keyed) (
        if-Ensures _ _ _ (Ensures-bind (unquote-Ends c s line) λ t _. holds (str-Keyed t))
          (if-Ensures _ _ _ threw (holds (plain_scalar-Keyed (String.◌∷◌ c s)))))

    trimmed_scalar-Ensures : (s : String) (line : ℕ) → Ensures Keyed (trimmed_scalar float s line)
    trimmed_scalar-Ensures String.[] line = holds null-Keyed
    trimmed_scalar-Ensures (String.◌∷◌ c s) line = scalar_from-Ensures c s line

    pub scalar-Ensures : (s : String) (line : ℕ) → Ensures Keyed (scalar float s line)
    unfolding scalar
    scalar-Ensures s line = trimmed_scalar-Ensures (trim s) line
