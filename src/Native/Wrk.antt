-- ===== src/Native/Wrk.antt =====
-- The wrk workload of crates/orchestrate/src/native.rs, and the reading of its text summary.
use Prim.Native.String.{[] as empty, ◌∷◌ as cons_char}
use assayist.Common.{
  ℕ, zero, suc, ◌^◌, String, List, [], ◌∷◌, ◌++◌, Option, none, some, Bool, is_some, if◌then◌else◌,
  and_then, unwrap_or, map_option, ok,
}
use assayist.Text.{format, starts_with, contains}
use assayist.Text.Number.{parse_uint}
use assayist.Text.Lines.{lines, strip_prefix, split_once}
use assayist.Text.Words.{is_whitespace, split_whitespace}
use assayist.Json.{Value, null, number, string, object, done, field}
use assayist.BTreeMap.{BTreeMap, get}
use assayist.Platform.{Platform, json_f64}
use assayist.Effects.{Action, done_with, ◌>>=◌}
use assayist.Adapter.{Shell, Workload}
use assayist.Native.{cfg, version_of, on_machine, change}
use assayist.Native.Fio.{command_line, report_of}

pub record WrkWorkload : Type 0 where
  pub bin : String
  pub args : List String

-- `trim_start`
abbrev pub trim_start : String → String
trim_start empty = empty
trim_start (cons_char c s) = if is_whitespace c then trim_start s else cons_char c s

abbrev pub find_label : (String → Bool) → List String → Option String
find_label test [] = none
find_label test (l ∷ ls) = if test l then some l else find_label test ls

-- `nth`
abbrev pub nth : ℕ → List String → Option String
nth i [] = none
nth zero (x ∷ xs) = some x
nth (suc i) (x ∷ xs) = nth i xs

-- `split(':').nth(1)`, of what stands behind the first colon
abbrev pub up_to_colon : String × String → String
up_to_colon (front, rest) = elim (split_once rest ":") [ none ↦ rest | some (part, more) ↦ part ]

abbrev pub labelled : String → String → Option String
labelled text label = find_label (λ l. starts_with (trim_start l) label) (lines text)

module _ ⦃p : Platform⦄ where
  open p use {F, N, trim, parse_f64, is_finite, of_f64, of_u64}

  abbrev pub after_colon : String → String → Option String
  after_colon text label =
      map_option (λ l. trim (up_to_colon l))
        (and_then (labelled text label) (λ l. split_once l ":"))

  abbrev pub string_or_null : Option String → Value N
  string_or_null s = unwrap_or (map_option string s) null

  unfoldable pub latency_field : String → String → ℕ → Value N
  latency_field text label i = string_or_null (
      and_then (and_then (labelled text label) (λ l. strip_prefix (trim_start l) label))
        (λ rest. nth i (split_whitespace rest)))

  unfoldable pub total_requests : String → Value N
  total_requests text =
      unwrap_or
        (map_option (λ n. number (of_u64 n))
          (and_then
            (and_then (find_label (λ l. contains l "requests in") (lines text))
              (λ l. nth 0 (split_whitespace l)))
            (parse_uint (2 ^ 64))))
        null

  -- `wrk_summary`
  unfoldable pub wrk_summary : String → Value N
  wrk_summary text = object (
      field "driver" (string "wrk") (
        field "latency_avg" (latency_field text "Latency" 0) (
          field "latency_max" (latency_field text "Latency" 2) (
            field "requests_per_sec"
              (unwrap_or
                (map_option json_f64 (and_then (after_colon text "Requests/sec") parse_f64)) null)
              (field "total_requests" (total_requests text) (
                field "transfer_per_sec" (string_or_null (after_colon text "Transfer/sec"))
                  done))))))

  abbrev flag_if : BTreeMap (Value N) → String → String → List String
  flag_if config key flag = if is_some (get key config) then flag ∷ [] else []

  unfoldable pub wrk_workload : BTreeMap (Value N) → BTreeMap String → WrkWorkload
  wrk_workload config vars =
      let g = cfg config vars in
      record {
        bin = g "bin" "wrk";
        args =
            (format ("-t" ∷ g "threads" "2" ∷ [])
              ∷ format ("-c" ∷ g "connections" "10" ∷ [])
              ∷ format ("-d" ∷ g "duration" "30" ∷ "s" ∷ [])
              ∷ "--latency"
              ∷ [])
            ++ flag_if config "rate" (format ("-R" ∷ g "rate" "" ∷ []))
            ++ flag_if config "script" (format ("-s" ∷ g "script" "" ∷ []))
            ++ g "url" "http://127.0.0.1:8080/" ∷ [];
      }

  module _ {W : Type 0} (sh : Shell W) (t : WrkWorkload) where
    abbrev pub wrk_version : W → String × W
    wrk_version w =
        let (r, w') = sh (format ("'" ∷ t.bin ∷ "' --version 2>&1" ∷ [])) w in
        (version_of "wrk" r, w')

    unfoldable pub start_wrk : Action (Option String × W) (Unit {0})
    start_wrk = do out ← on_machine (sh (command_line t.bin t.args)); change (λ c. some out)

    -- the workload, over the cell of its output
    unfoldable pub wrk : Workload (Option String × W) N
    wrk = record {
      version = λ s. let (v, w) = wrk_version s.1 in (v, (s.0, w));
      start = start_wrk;
      stop = done_with tt;
      report = λ s. (ok (report_of wrk_summary s.0), s);
    }
