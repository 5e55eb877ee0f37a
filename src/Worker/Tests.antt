-- ===== src/Worker/Tests.antt =====
-- A job delivered twice, and a start over schedules that are there.
use relaydot.Prelude.{
  str_eq_refl, Option, List, ◌=ˢ◌, if◌then◌else◌, ◌+ˢ◌, true, false, String, none, some, [], ◌∷◌,
  ◌≡◌, refl, ok,
}
use relaydot.Json.{ratio, str, Row, obj, end, field}
use relaydot.Store.Schema.{Draw, empty}
use relaydot.Webdav.{Network}
use relaydot.Crypto.{Cipher}
use relaydot.Ingest.{Host}
use relaydot.Sources.Loading.{Reader, Feed}
use relaydot.Worker.{acked, process}
use relaydot.Worker.Convergence.{run, register_schedules-wanted}
use relaydot.Worker.Redelivery.{process-again}
use relaydot.Worker.Schedules.{
  ScheduleSpec, Call, expression_of, add, update, remove, register_schedules,
}

abbrev cipher : Cipher
cipher = record {
  scrypt = λ passphrase salt n. [];
  seal = λ key iv plain. (iv, plain);
  unseal = λ key iv tag sealed. some sealed;
  to_base64 = λ bytes. "";
  from_base64 = λ s. [];
  to_utf8 = λ s. [];
  from_utf8 = λ bytes. "";
}

abbrev network : Network
network = record {
  parse_url = λ text.
      some (record {
        protocol = "https:";
        pathname = "/dav";
        with_path = λ path. "https://h" +ˢ path;
      });
  resolve = λ path base. none;
  encode_uri = λ s. s;
  base64_of_text = λ s. s;
  fetch = λ authorization method url. none;
}

abbrev host : Host
host = record {
  parse = λ text. none;
  sha256 = λ s. s;
  sha256_bytes = λ bytes. "";
  decode = λ bytes. "";
  parse_date = λ s. none;
  not_after = λ a b. true;
  stringify_event = λ row t. "event";
  to_number = λ value. none;
  as_time = λ value. none;
  message = λ e. "error";
}

abbrev reader : Reader
reader = record {
  read = λ path. ok "kind: CatalogSources";
  message = λ e. "error";
  yaml_message = λ e. "error";
  float = λ s. ratio false 0 0;
  quoted = λ s. s;
  is_inherited = λ s. false;
  to_text = λ v. "value";
  upper = λ s. s;
}

abbrev feed : Feed
feed = record {
  parse_url = λ url. none;
  resolve = λ path base. none;
  declares_over = λ text n. false;
  decode = λ bytes. "";
  parse = λ text. none;
  upper = λ s. s;
  show = λ n. "n";
  message = λ e. "error";
  env = λ name. none;
  fetch = λ headers now url. none;
}

abbrev draw : String → Draw
draw audit_id = record { now = 100; id = "s1"; token = "t"; audit_now = 100; audit_id = audit_id }

abbrev job : Row
job = field "kind" (str "command_created") (field "command_id" (str "c1") end)

process-again_example :
    process host cipher network none reader feed "sources.yaml"
      (draw "a2")
      7
      (obj job)
      (process host cipher network none reader feed "sources.yaml" (draw "a1") 6 (obj job) empty).1
    ≡ (
      acked,
      (process host cipher network none reader feed "sources.yaml" (draw "a1") 6 (obj job) empty).1,
    )
process-again_example =
    process-again host cipher network none reader feed "sources.yaml" job "c1" refl refl (draw "a1")
      (draw "a2") 6 7 empty refl

abbrev spec : String → String → ScheduleSpec
spec name expression = record { name = name; expression = expression; kind = "usage_ingest" }

registered :
    register_schedules
      (("relaydot.old", "1 * * * *") ∷ ("other", "2 * * * *") ∷ ("relaydot.b", "3 * * * *") ∷ [])
      (spec "relaydot.a" "4 * * * *" ∷ spec "relaydot.b" "5 * * * *" ∷ [])
    ≡ add (spec "relaydot.a" "4 * * * *")
      ∷ update (spec "relaydot.b" "5 * * * *")
      ∷ remove "relaydot.old"
      ∷ []
unfolding register_schedules
registered = refl

-- A scheduler as the function from names to expressions.
abbrev Table : Type 0
Table = String → Option String

abbrev lookup : Table → String → Option String
lookup table n = table n

abbrev changed : String → Option String → Option String
changed expression none = none
changed expression (some before) = some expression

abbrev apply : Call → Table → Table
apply (add s) table n = if s.name =ˢ n then some s.expression else table n
apply (update s) table n = if s.name =ˢ n then changed s.expression (table n) else table n
apply (remove name) table n = if name =ˢ n then none else table n

apply-update :
    (s : ScheduleSpec) (table : Table) (expression : String)
    → lookup table s.name ≡ some expression
    → lookup (apply (update s) table) s.name ≡ some s.expression
apply-update s table expression h = rw (str_eq_refl s.name, h)

apply-update_other :
    (s : ScheduleSpec) (table : Table) (n : String)
    → (s.name =ˢ n) ≡ false
    → lookup (apply (update s) table) n ≡ lookup table n
apply-update_other s table n h = rw h

abbrev existing : List (String × String)
existing = ("relaydot.old", "1 * * * *") ∷ ("other", "2 * * * *") ∷ ("relaydot.b", "3 * * * *") ∷ []

register_schedules-wanted_example :
    lookup
      (run lookup apply
        (λ s table n. refl)
        apply-update
        apply-update_other
        (λ name table n. refl)
        (register_schedules existing
          (spec "relaydot.a" "4 * * * *" ∷ spec "relaydot.b" "5 * * * *" ∷ []))
        (λ n. expression_of n existing))
      "relaydot.b"
    ≡ some "5 * * * *"
register_schedules-wanted_example =
    register_schedules-wanted lookup apply (λ s table n. refl) apply-update apply-update_other
      (λ name table n. refl) existing
      (spec "relaydot.a" "4 * * * *" ∷ spec "relaydot.b" "5 * * * *" ∷ [])
      (λ n. expression_of n existing) (refl, (refl, tt)) (λ n. refl) "relaydot.b"
