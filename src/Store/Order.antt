-- ===== src/Store/Order.antt =====
-- SQLite's order of texts: `memcmp` of the bytes, which is that of the code points.
use Prim.Native.Nat.{Ordering}
use Prim.Native.String
use relaydot.Prelude.{String, Bool, true, false}

abbrev pub str_ltb : String → String → Bool
str_ltb a b = elim (String.compare a b) [ Ordering.lt ↦ true | _ ↦ false ]
