-- ===== src/Common/Text/Location.antt =====
-- What net/http's `Redirect` makes of a URL that starts with one slash, with path.Clean and the
-- checks of net/url behind it.
use Prim.Native.Char.{code}
use Prim.Native.Nat.{ℕ, ◌/◌, ◌%◌}
use Prim.Native.String.{String, [], ◌∷◌, ◌++◌}
use mathlib.Core.Bool.{Bool, true, false, not, ◌&&◌, ◌||◌}
use mathlib.Core.List.{List}
use text.Mathlib.Text.{◌==◌}
use swosh.Common.Tests.{ltb, leb, eqb, if◌then◌else◌}
use swosh.Common.Bytes.{Bytes, utf8_char}
use swosh.Common.Text.{char_of}

-- The text in front of the first character with a code, and the text from it on.
unfoldable pub before : ℕ → String → String
before k [] = []
before k (c ∷ s) = let rest = before k s in if eqb (code c) k then [] else c ∷ rest

unfoldable pub from : ℕ → String → String
from k [] = []
from k (c ∷ s) = let rest = from k s in if eqb (code c) k then c ∷ s else rest

abbrev pub is_hex : ℕ → Bool
is_hex c = leb b'0' c && leb c b'9' || leb b'a' c && leb c b'f' || leb b'A' c && leb c b'F'

abbrev pub starts_hex : String → Bool
starts_hex (c ∷ d ∷ s) = is_hex (code c) && is_hex (code d)
starts_hex (c ∷ []) = false
starts_hex [] = false

-- Every % stands in front of two hexadecimal digits.
unfoldable pub is_escaped : String → Bool
is_escaped [] = true
is_escaped (c ∷ s) = (not (eqb (code c) b'%') || starts_hex s) && is_escaped s

unfoldable pub has_control : String → Bool
has_control [] = false
has_control (c ∷ s) = ltb (code c) 0x20 || eqb (code c) 0x7f || has_control s

-- Whether `url.Parse` returns no error; it does not look into the query.
unfoldable pub is_url : String → Bool
unfolding has_control is_escaped before from
is_url u =
    not (has_control u) && is_escaped (before b'?' (before b'#' u)) && is_escaped (from b'#' u)

-- The parts of a path between its slashes.
abbrev pub onto_first : String → List String → List String
onto_first s List.[] = List.◌∷◌ s List.[]
onto_first s (List.◌∷◌ t ts) = List.◌∷◌ (s ++ t) ts

unfoldable pub segments : String → List String
segments [] = List.◌∷◌ "" List.[]
segments (c ∷ s) =
    let rest = segments s in
    if eqb (code c) b'/' then List.◌∷◌ "" rest else onto_first (c ∷ []) rest

abbrev pub tail : List String → List String
tail List.[] = List.[]
tail (List.◌∷◌ s l) = l

-- The parts that are kept, the last one first.
unfoldable pub resolve : List String → List String → List String
resolve kept List.[] = kept
resolve kept (List.◌∷◌ s l) =
    resolve (if s == "" || s == "." then kept else if s == ".." then tail kept else List.◌∷◌ s kept)
      l

unfoldable pub joined : List String → String
joined List.[] = ""
joined (List.◌∷◌ s kept) = joined kept ++ "/" ∷ s

-- `path.Clean` of a path that starts with a slash
unfoldable pub clean : String → String
unfolding segments resolve joined
clean p = let q = joined (resolve List.[] (segments p)) in if q == "" then "/" else q

unfoldable pub ends_in_slash : String → Bool
ends_in_slash [] = false
ends_in_slash (c ∷ []) = eqb (code c) b'/'
ends_in_slash (c ∷ d ∷ s) = ends_in_slash (d ∷ s)

-- The path is cleaned, but for a slash at its end, and the query stays.
abbrev pub with_slash : Bool → String → String
with_slash trailing p = if trailing && not (ends_in_slash p) then p ++ "/" else p

unfoldable pub tidy : String → String
unfolding clean before from ends_in_slash
tidy u = let path = before b'?' u in with_slash (ends_in_slash path) (clean path) ++ from b'?' u

abbrev pub lower_hex : String
lower_hex = "0123456789abcdef"

unfoldable pub hex_bytes : Bytes → String
unfolding char_of
hex_bytes List.[] = []
hex_bytes (List.◌∷◌ b bs) =
    "%" ∷ char_of lower_hex (b / 16) ∷ char_of lower_hex (b % 16) ∷ hex_bytes bs

-- `hexEscapeNonASCII`
unfoldable pub hex_escape : String → String
unfolding hex_bytes
hex_escape [] = []
hex_escape (c ∷ s) =
    let rest = hex_escape s in
    if ltb (code c) 0x80 then c ∷ rest else hex_bytes (utf8_char (code c)) ++ rest

-- The URL that the link in the body of the answer has, and the Location of the answer.
unfoldable pub moved_url : String → String
unfolding is_url tidy
moved_url u = if is_url u then tidy u else u

unfoldable pub location : String → String
unfolding hex_escape moved_url
location u = hex_escape (moved_url u)
