-- ===== src/Capture/Plan.antt =====
-- crates/orchestrate/src/capture.rs: the capture entries of a definition as launches.
use Prim.Native.Char.{Char, code}
use Prim.Native.String.{[] as empty, ◌∷◌ as cons_char}
use assayist.Common.{
  ℕ, String, List, [], ◌∷◌, Bool, ◌||◌, ◌&&◌, if◌then◌else◌, map, Exec, ok, ◌>>=◌, or_err, leb,
  ◌==◌,
}
use assayist.Text.{format}
use assayist.Text.Number.{show_ℕ}
use assayist.Text.Lines.{replace}
use assayist.BTreeMap.{BTreeMap}
use assayist.Def.{CaptureEntry}

pub record GadgetInvocation : Type 0 where
  pub gadget : String
  pub probe : String
  pub args : List String
  pub out_path : String

-- `render` of crates/orchestrate/src/adapter.rs
unfoldable pub render : String → BTreeMap String → String
render s [] = s
render s ((k, v) ∷ vars) = render (replace s (format ("{" ∷ k ∷ "}" ∷ [])) v) vars

abbrev pub is_plain : Char → Bool
is_plain c =
    let n = code c in
    (leb 48 n && leb n 57)
    || (leb 65 n && leb n 90)
    || (leb 97 n && leb n 122)
    || n == 45
    || n == 95

unfoldable pub sanitize : String → String
sanitize empty = empty
sanitize (cons_char c s) = cons_char (if is_plain c then c else "_") (sanitize s)

-- one launch; `join` is `Path::join` to the directory, as text
abbrev pub plan_gadget :
    CaptureEntry → ℕ → (String → String) → BTreeMap String → Exec GadgetInvocation
plan_gadget e duration_secs join vars =
    let out_path = join (format (sanitize e.probe ∷ ".frag.json" ∷ [])) in
    let args =
      "--duration" ∷ show_ℕ duration_secs ∷ "--out" ∷ out_path ∷ map (λ a. render a vars) e.args in
    do
      gadget ←
          or_err e.gadget (format ("capture '" ∷ e.probe ∷ "' names no gadget binary to run" ∷ []))
      ok (record { gadget = gadget; probe = e.probe; args = args; out_path = out_path })

unfoldable pub plan_gadgets :
    List CaptureEntry → ℕ → (String → String) → BTreeMap String → Exec (List GadgetInvocation)
plan_gadgets [] duration_secs join vars = ok []
plan_gadgets (e ∷ entries) duration_secs join vars = do
  inv ← plan_gadget e duration_secs join vars
  plan ← plan_gadgets entries duration_secs join vars
  ok (inv ∷ plan)
