-- ===== src/Text/Utf8.antt =====
-- `str::as_bytes`: the UTF-8 bytes of a text.
use Prim.Native.Char.{code}
use Prim.Native.String.{[] as empty, ◌∷◌ as cons_char}
use assayist.Common.{ℕ, ◌+◌, ◌/◌, ◌%◌, String, List, [], ◌∷◌, ◌++◌, if◌then◌else◌, ltb, ◌≡◌, refl}

-- the low six bits of a number, as a byte of continuation
abbrev pub continuation : ℕ → ℕ
continuation n = 128 + n % 64

abbrev pub encode_char : ℕ → List ℕ
encode_char n =
    if ltb n 128
    then n ∷ []
    else if ltb n 2048
    then (192 + n / 64) ∷ continuation n ∷ []
    else if ltb n 65536
    then (224 + n / 4096) ∷ continuation (n / 64) ∷ continuation n ∷ []
    else (240 + n / 262144) ∷ continuation (n / 4096) ∷ continuation (n / 64) ∷ continuation n ∷ []

unfoldable pub utf8 : String → List ℕ
utf8 empty = []
utf8 (cons_char c s) = encode_char (code c) ++ utf8 s

encodes : utf8 "aé€" ≡ 97 ∷ 195 ∷ 169 ∷ 226 ∷ 130 ∷ 172 ∷ []
unfolding utf8
encodes = refl
