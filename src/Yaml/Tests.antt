-- ===== src/Yaml/Tests.antt =====
-- apps/web/src/lib/yaml-lite.ts: runs.
use relaydot.Prelude.{String, Bool, false, true, ◌≡◌, ◌≢◌, refl}
use relaydot.Json.{Number, Json, null, bool, num, str, arr, obj, nil, cons, end, field, ratio}
use relaydot.Yaml.{Outcome, done, fail, unfinished}
use relaydot.Yaml.Keys.{IsKeyed}
use relaydot.Yaml.Printer.{print, IsWritable}
use relaydot.Yaml.RoundTrip.{parse_yaml-print}
use relaydot.Yaml.Reading.{parse_yaml-ends, parse_yaml-IsKeyed}
use relaydot.Yaml.Scalars.{split_key, scalar, has_key}
use relaydot.Yaml.Blocks.{parse_yaml}

abbrev float : String → Number
float s = ratio false 1 1

abbrev quoted : String → String
quoted s = s

abbrev inherited : String → Bool
inherited s = false

abbrev parse : String → Outcome Json
parse = parse_yaml float quoted inherited

reads_nested :
    parse
      "# a\n---\nname: relaydot # x\nlist:\n  - one\n  - \"a: b\"\n  - key: v\n    on: true\n  -\n    - 0.5\nurl: https://a/b\nempty:"
    ≡ done (
        obj (
          field "name" (str "relaydot") (
            field "list"
              (arr (
                cons (str "one") (
                  cons (str "a: b") (
                    cons
                      (obj (field "key" (str "v") (field "on" (bool true) end)))
                      (cons (arr (cons (num (ratio false 1 1)) nil)) nil)))))
              (field "url" (str "https://a/b") (field "empty" null end)))))
unfolding parse_yaml split_key scalar has_key
reads_nested = refl

refuses_duplicate : parse "a: 1\na: 2" ≡ fail "duplicate mapping key: a" 2
unfolding parse_yaml split_key scalar has_key
refuses_duplicate = refl

abbrev nested : String
nested = "a: [\nb:\n  - c: 1\n    d:\n  -"

parse_yaml-ends_example : parse nested ≢ unfinished
parse_yaml-ends_example = parse_yaml-ends float quoted inherited nested

abbrev twins : String
twins = "list:\n  - a: x\n    b: y\n  - a: z"

twin : Json → Json
twin v = obj (field "a" v end)

reads_twins :
    parse twins
    ≡ done (
        obj (
          field "list"
            (arr (
              cons
                (obj (field "a" (str "x") (field "b" (str "y") end)))
                (cons (twin (str "z")) nil)))
            end))
unfolding parse_yaml split_key scalar has_key twin
reads_twins = refl

parse_yaml-IsKeyed_example : IsKeyed inherited (
    obj (
      field "list"
        (arr
          (cons (obj (field "a" (str "x") (field "b" (str "y") end))) (cons (twin (str "z")) nil)))
        end))
parse_yaml-IsKeyed_example = parse_yaml-IsKeyed float quoted inherited twins reads_twins

-- list: [- "a: #1", - {key with a quote: null, on: true}], then a text with a line break
abbrev document : Json
document = obj (
    field "list"
      (arr (
        cons (str "a: #1") (
          cons (obj (field "say \"x\"" null (field "on" (bool true) end)))
            (cons (arr (cons null nil)) nil))))
      (field "text" (str "two\nlines\t\\") end))

parse_yaml-print_example : parse (print document) ≡ done document
unfolding IsWritable IsKeyed
parse_yaml-print_example =
    parse_yaml-print float quoted inherited document tt
      (cc, ((cc, (tt, ((cc, (tt, (tt, tt))), ((cc, (tt, tt)), tt)))), (tt, tt)))
      (
        cc,
        refl,
        refl,
        (tt, ((cc, refl, refl, tt, (cc, refl, refl, tt, tt)), ((tt, tt), tt))),
        (cc, refl, refl, tt, tt),
      )
