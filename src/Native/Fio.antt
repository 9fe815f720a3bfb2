-- ===== src/Native/Fio.antt =====
-- The fio workload of crates/orchestrate/src/native.rs, which runs to its end in `start`.
pub mod Reports
use assayist.Common.{String, List, [], ◌∷◌, Option, none, some, Exec, map, and_then, unwrap_or, ok}
use assayist.Text.{format}
use assayist.Json.{Value, null, string, object, done, field, get, get_in}
use assayist.BTreeMap.{BTreeMap}
use assayist.Platform.{Platform}
use assayist.Gate.Command.{map_err}
use assayist.Effects.{Action, done_with, finish, ◌>>=◌, ◌>>◌}
use assayist.Adapter.{Shell, Workload}
use assayist.Otlp.{get_first, or_other}
use assayist.Native.{cfg, tool_version, on_machine, change}

pub record FioWorkload : Type 0 where
  pub bin : String
  pub args : List String

abbrev pub quoted : List String → String
quoted [] = ""
quoted (a ∷ []) = format ("'" ∷ a ∷ "'" ∷ [])
quoted (a ∷ b ∷ args) = format ("'" ∷ a ∷ "' " ∷ quoted (b ∷ args) ∷ [])

abbrev pub command_line : String → List String → String
command_line bin args = format ("'" ∷ bin ∷ "' " ∷ quoted args ∷ [])

module _ {N : Type 0} where
  abbrev pub or_null : Option (Value N) → Value N
  or_null v = unwrap_or v null

  -- the summary of one direction
  unfoldable pub direction : Option (Value N) → String → Value N
  direction job name =
      let d = get_in name job in
      let clat = or_other (get_in "clat_ns" d) (get_in "clat" d) in
      object (
        field "bw_kb_s" (or_null (get_in "bw" d)) (
          field "clat_ns_mean" (or_null (get_in "mean" clat)) (
            field "clat_ns_p99" (or_null (get_in "99.000000" (get_in "percentile" clat)))
              (field "iops" (or_null (get_in "iops" d)) done))))

  -- `fio_summary`
  unfoldable pub fio_summary : Value N → Value N
  fio_summary v =
      let job = and_then (get "jobs" v) get_first in
      object (
        field "driver" (string "fio") (
          field "fio_version" (or_null (or_other (get "fio version" v) (get "fio_version" v)))
            (field "read" (direction job "read") (field "write" (direction job "write") done))))

  abbrev pub report_of : {A : Type 0} → (A → Value N) → Option A → Value N
  report_of summary none = null
  report_of summary (some out) = summary out

module _ ⦃p : Platform⦄ where
  open p use {N, trim}

  unfoldable pub fio_workload : BTreeMap (Value N) → BTreeMap String → FioWorkload
  fio_workload config vars =
      let g = cfg config vars in
      record {
        bin = g "bin" "fio";
        args =
            format ("--name=" ∷ g "name" "assayist" ∷ [])
            ∷ format ("--filename=" ∷ g "filename" "/tmp/assayist-fio.dat" ∷ [])
            ∷ format ("--rw=" ∷ g "rw" "randread" ∷ [])
            ∷ format ("--bs=" ∷ g "bs" "4k" ∷ [])
            ∷ format ("--iodepth=" ∷ g "iodepth" "32" ∷ [])
            ∷ format ("--numjobs=" ∷ g "numjobs" "1" ∷ [])
            ∷ format ("--ioengine=" ∷ g "ioengine" "libaio" ∷ [])
            ∷ format ("--direct=" ∷ g "direct" "1" ∷ [])
            ∷ format ("--size=" ∷ g "size" "1G" ∷ [])
            ∷ format ("--runtime=" ∷ g "runtime" "30" ∷ [])
            ∷ "--time_based"
            ∷ "--output-format=json"
            ∷ [];
      }

  module _ {W : Type 0} (sh : Shell W) (from_str : String → Exec (Value N)) (t : FioWorkload) where
    abbrev pub parse_fio : String → Exec (Value N)
    parse_fio out =
        map_err (λ e. format ("parsing fio json output: " ∷ e ∷ [])) (from_str (trim out))

    unfoldable pub start_fio : Action (Option (Value N) × W) (Unit {0})
    start_fio = do
      out ← on_machine (sh (command_line t.bin t.args))
      parsed ← finish (parse_fio out)
      change (λ c. some parsed)

    -- the workload, over the cell of its output
    unfoldable pub fio : Workload (Option (Value N) × W) N
    fio = record {
      version = λ s. let (v, w) = tool_version sh t.bin "fio" s.1 in (v, (s.0, w));
      start = start_fio;
      stop = done_with tt;
      report = λ s. (ok (report_of fio_summary s.0), s);
    }
