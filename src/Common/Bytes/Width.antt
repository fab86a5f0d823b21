-- ===== src/Common/Bytes/Width.antt =====
-- A text has as many bytes in `len` as in its UTF-8.
use Prim.Native.Char.{Char, code, len_utf8, len_utf8_def}
use Prim.Native.String.{String, len}
use Prim.Native.String.len
use mathlib.Core.Path.{◌≡◌, sym, ◌∙◌}
use native.Mathlib.Omega.{arith}
use swosh.Common.Lists.{length, length-append}
use swosh.Common.Bytes.{utf8, utf8_char}

length-utf8_char : (c : Char) → length (utf8_char (code c)) ≡ len_utf8 c
unfolding utf8_char
length-utf8_char c = rw (len_utf8_def c) (ground arith)

pub length-utf8 : (s : String) → length (utf8 s) ≡ len s
unfolding utf8
length-utf8 String.[] = sym len.nil
length-utf8 (String.◌∷◌ c s) =
    length-append (utf8_char (code c)) (utf8 s)
    ∙ (rw (length-utf8_char c, length-utf8 s) (sym (len.cons c s)))
