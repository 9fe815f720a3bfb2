-- ===== src/Native/Fio/Reports.antt =====
-- What an fio run reports, and which command it comes from.
use assayist.Common.{String, Option, some, Exec, ok, err, panic, ◌≡◌, refl}
use assayist.Json.{Value}
use assayist.Platform.{Platform}
use assayist.Effects.{continue, finish, ◌>>=◌}
use assayist.Effects.Triples.{Ensures}
use assayist.Gate.Command.{map_err}
use assayist.Adapter.{Shell}
use assayist.Native.{moved, change}
use assayist.Native.Fio.{FioWorkload, command_line, fio, start_fio, fio_summary, parse_fio}

module _ ⦃p : Platform⦄ {W : Type 0} (sh : Shell W) (from_str : String → Exec (Value p.N))
    (t : FioWorkload) where
  open p use {N, trim}

  -- the command behind the start, and what is reported from then on
  pub record IsReported (w : W) (s : Option (Value N) × W) : Type 0 where
    pub out : String
    pub parsed : Value N
    pub ran : sh (command_line t.bin t.args) w ≡ (ok out, s.1)
    pub read : from_str (trim out) ≡ ok parsed
    pub reported :
        (w' : W) → (fio sh from_str t).report (s.0, w') ≡ (ok (fio_summary parsed), (s.0, w'))

  -- When `start` of the fio workload succeeds, its command line ran with success, its trimmed output
  -- parsed as JSON, and every report from then on is the summary of that JSON. When it fails, the
  -- output that it keeps is as before.
  pub start-IsReported :
      (c : Option (Value N)) (w : W)
      → Ensures (λ _ s. IsReported w s) (λ s. s.0 ≡ c) ((fio sh from_str t).start (c, w))
  unfolding fio start_fio
  start-IsReported c w = ran (sh (command_line t.bin t.args) w) refl
    where
      read :
          (out : String) (w' : W) (f : String → String) (x : Exec (Value N))
          → sh (command_line t.bin t.args) w ≡ (ok out, w')
          → from_str (trim out) ≡ x
          → Ensures
              (λ _ s. IsReported w s)
              (λ s. s.0 ≡ c)
              (continue (map_err f x, (c, w')) (λ parsed. change (λ _. some parsed)))
      read out w' f (ok v) e r = record {
        out = out;
        parsed = v;
        ran = e;
        read = r;
        reported = λ w''. refl;
      }
      read out w' f (err d) e r = refl
      read out w' f panic e r = tt

      ran :
          (x : Exec String × W)
          → sh (command_line t.bin t.args) w ≡ x
          → Ensures
              (λ _ s. IsReported w s)
              (λ s. s.0 ≡ c)
              (continue (moved c x) (λ out.
                finish (parse_fio sh from_str t out) >>= λ parsed. change (λ _. some parsed)))
      ran (ok out, w') e = read out w' _ (from_str (trim out)) e refl
      ran (err d, w') e = refl
      ran (panic, w') e = tt
