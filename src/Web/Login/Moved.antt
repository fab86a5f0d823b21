-- ===== src/Web/Login/Moved.antt =====
-- The redirects of internal/web/authn.go, i18n.go and theme.go, once `http.Redirect` has tidied
-- the path that they lead to.
use Prim.Native.String.{String, [], ◌∷◌, ◌++◌}
use mathlib.Core.List.{List}
use text.Mathlib.TextLemmas.{nil-append, cons-append}
use swosh.Common.{
  ℕ, zero, suc, code, ◌/◌, ◌%◌, ◌≡◌, refl, sym, ap, ◌∙◌, subst, ◌≢◌, ◌⊎◌, inl, inr, Bool, true,
  false, not, ◌&&◌, ◌||◌, arith, ◌==◌, eq_iff, ltb, eqb, if◌then◌else◌, Bool-cases,
}
use swosh.Common.Bytes.{Bytes, utf8_char}
use swosh.Common.Text.{char_of}
use swosh.Common.Text.Prefix.{has_prefix}
use swosh.Common.Text.Location.{
  before, from, is_url, onto_first, segments, tail, resolve, joined, clean, ends_in_slash,
  with_slash, tidy, lower_hex, hex_bytes, hex_escape, moved_url, location,
}
use swosh.Web.Login.{is_unsafe, contains_unsafe, local_path}
use swosh.Web.Login.Local.{IsOnSite, browser_reads-safe}

contains_unsafe-append :
    (s t : String) → contains_unsafe (s ++ t) ≡ (contains_unsafe s || contains_unsafe t)
unfolding contains_unsafe
contains_unsafe-append [] t = rw nil-append refl
contains_unsafe-append (c ∷ s) t = rw cons-append (ground (arith, contains_unsafe-append s t))

abbrev is_slash_first : String → Bool
is_slash_first [] = false
is_slash_first (c ∷ s) = eqb (code c) b'/'

-- A slash, and no slash behind it.
abbrev has_one_slash : String → Bool
has_one_slash [] = false
has_one_slash (c ∷ s) = eqb (code c) b'/' && not (is_slash_first s)

-- The same, with a character behind the slash.
abbrev is_rooted : String → Bool
is_rooted [] = false
is_rooted (c ∷ []) = false
is_rooted (c ∷ d ∷ s) = eqb (code c) b'/' && not (eqb (code d) b'/')

rooted-append : (s t : String) → is_rooted s ≡ true → is_rooted (s ++ t) ≡ true
rooted-append [] t h = cc
rooted-append (c ∷ []) t h = cc
rooted-append (c ∷ d ∷ s) t h = rw cons-append (rw cons-append h)

is_rooted-one : (s : String) → is_rooted s ≡ true → has_one_slash s ≡ true
is_rooted-one [] h = cc
is_rooted-one (c ∷ []) h = cc
is_rooted-one (c ∷ d ∷ s) h = h

-- A part of a path: no slash stands at its beginning, and nothing in it is unsafe.
abbrev IsPart : String → Type 0
IsPart s = (is_slash_first s ≡ false) × (contains_unsafe s ≡ false)

abbrev AllParts : List String → Type 0
AllParts List.[] = Unit
AllParts (List.◌∷◌ s l) = IsPart s × AllParts l

onto_first-AllParts :
    (s : String) (l : List String)
    → is_slash_first s ≡ false
    → s ≢ ""
    → contains_unsafe s ≡ false
    → AllParts l
    → AllParts (onto_first s l)
onto_first-AllParts s List.[] head given safe h = ((head, safe), tt)
onto_first-AllParts [] (List.◌∷◌ t ts) head given safe h = absurd (given refl)
onto_first-AllParts (c ∷ s) (List.◌∷◌ t ts) head given safe h =
    ((rw cons-append head, contains_unsafe-append (c ∷ s) t ∙ rw safe h.0.1), h.1)

segments-AllParts : (p : String) → contains_unsafe p ≡ false → AllParts (segments p)
unfolding segments contains_unsafe
segments-AllParts [] h = ((refl, refl), tt)
segments-AllParts (c ∷ s) h = elim (Bool-cases (eqb (code c) b'/')) [
  | inl slash ↦ rw slash ((refl, refl), segments-AllParts s (ground arith))
  | inr other ↦ rw other (
      onto_first-AllParts (c ∷ []) (segments s) other (λ e. cc) (ground arith)
        (segments-AllParts s (ground arith)))
]

-- Parts that are kept are not empty.
abbrev AllKept : List String → Type 0
AllKept List.[] = Unit
AllKept (List.◌∷◌ s l) = (s ≢ "") × IsPart s × AllKept l

tail-AllKept : (l : List String) → AllKept l → AllKept (tail l)
tail-AllKept List.[] h = tt
tail-AllKept (List.◌∷◌ s l) (given, part, h) = h

resolve-AllKept : (kept l : List String) → AllKept kept → AllParts l → AllKept (resolve kept l)
unfolding resolve
resolve-AllKept kept List.[] k h = k
resolve-AllKept kept (List.◌∷◌ s l) k h = elim (Bool-cases (s == "" || s == ".")) [
  | inl idle ↦ rw idle (resolve-AllKept kept l k h.1)
  | inr moves ↦ rw moves (elim (Bool-cases (s == "..")) [
    | inl up ↦ rw up (resolve-AllKept (tail kept) l (tail-AllKept kept k) h.1)
    | inr down ↦
        rw down (resolve-AllKept (List.◌∷◌ s kept) l (ground (arith, eq_iff s ""), h.0, k) h.1)
  ])
]

-- One slash in front, and nothing unsafe.
abbrev IsTop : String → Type 0
IsTop t = (has_one_slash t ≡ true) × (contains_unsafe t ≡ false)

abbrev IsDeep : String → Type 0
IsDeep t = (is_rooted t ≡ true) × (contains_unsafe t ≡ false)

slash-IsDeep : (s : String) → s ≢ "" → IsPart s → IsDeep ("/" ∷ s)
unfolding contains_unsafe
slash-IsDeep [] given h = absurd (given refl)
slash-IsDeep (c ∷ s) given h = (ground arith, ground arith)

append-IsDeep : (s t : String) → IsDeep s → contains_unsafe t ≡ false → IsDeep (s ++ t)
append-IsDeep s t h safe = (rooted-append s t h.0, contains_unsafe-append s t ∙ rw h.1 safe)

slash-safe : (s : String) → contains_unsafe s ≡ false → contains_unsafe ("/" ∷ s) ≡ false
unfolding contains_unsafe
slash-safe s h = ground arith

joined-IsDeep : (l : List String) → AllKept l → (joined l ≡ "") ⊎ IsDeep (joined l)
unfolding joined
joined-IsDeep List.[] h = inl refl
joined-IsDeep (List.◌∷◌ s l) (given, part, h) = inr (elim (joined-IsDeep l h) [
  | inl top ↦ rw top (rw nil-append (slash-IsDeep s given part))
  | inr deep ↦ append-IsDeep (joined l) ("/" ∷ s) deep (slash-safe s part.1)
])

clean-IsDeep : (p : String) → contains_unsafe p ≡ false → (clean p ≡ "/") ⊎ IsDeep (clean p)
unfolding clean
clean-IsDeep p h =
    elim (joined-IsDeep (resolve List.[] (segments p))
      (resolve-AllKept List.[] (segments p) tt (segments-AllParts p h))) [
        | inl top ↦ inl (rw (top, clean) refl)
        | inr deep ↦ elim (Bool-cases (joined (resolve List.[] (segments p)) == "")) [
          | inl blank ↦ inl (rw (blank, clean) refl)
          | inr given ↦ inr (rw (given, clean) deep)
        ]
      ]

with_slash-IsDeep :
    (b : Bool) (p : String)
    → (p ≡ "/") ⊎ IsDeep p
    → (with_slash b p ≡ "/") ⊎ IsDeep (with_slash b p)
unfolding ends_in_slash contains_unsafe
with_slash-IsDeep b p (inl top) =
    inl (rw top (elim (Bool-cases b) [ inl trailing ↦ rw trailing refl | inr bare ↦ rw bare refl ]))
with_slash-IsDeep b p (inr deep) = inr (elim (Bool-cases (b && not (ends_in_slash p))) [
  | inl added ↦ rw added (append-IsDeep p "/" deep refl)
  | inr kept ↦ rw kept deep
])

before-safe :
    (k : ℕ) (s : String) → contains_unsafe s ≡ false → contains_unsafe (before k s) ≡ false
unfolding before contains_unsafe
before-safe k [] h = refl
before-safe k (c ∷ s) h = elim (Bool-cases (eqb (code c) k)) [
  | inl here ↦ rw here refl
  | inr on ↦ rw on (ground (arith, before-safe k s))
]

from-safe : (k : ℕ) (s : String) → contains_unsafe s ≡ false → contains_unsafe (from k s) ≡ false
unfolding from contains_unsafe
from-safe k [] h = refl
from-safe k (c ∷ s) h = ground (arith, from-safe k s)

is_slash_first-from : (s : String) → is_slash_first (from b'?' s) ≡ false
unfolding from
is_slash_first-from [] = refl
is_slash_first-from (c ∷ s) = ground (arith, is_slash_first-from s)

append-IsTop :
    (p q : String)
    → (p ≡ "/") ⊎ IsDeep p
    → is_slash_first q ≡ false
    → contains_unsafe q ≡ false
    → IsTop (p ++ q)
append-IsTop p q (inl top) head safe =
    rw top (subst IsTop (sym slash_append) (rw head refl, slash-safe q safe))
  where
    slash_append : "/" ++ q ≡ "/" ∷ q
    slash_append = cons-append "/" "" q ∙ ap (λ r. "/" ∷ r) (nil-append q)
append-IsTop p q (inr deep) head safe =
    let all = append-IsDeep p q deep safe in (is_rooted-one (p ++ q) all.0, all.1)

tidy-IsTop : (u : String) → contains_unsafe u ≡ false → IsTop (tidy u)
unfolding tidy
tidy-IsTop u h =
    append-IsTop _ (from b'?' u)
      (with_slash-IsDeep _ _ (clean-IsDeep (before b'?' u) (before-safe b'?' u h)))
      (is_slash_first-from u) (from-safe b'?' u h)

moved_url-IsTop : (u : String) → IsTop u → IsTop (moved_url u)
unfolding moved_url
moved_url-IsTop u h = elim (Bool-cases (is_url u)) [
  | inl read ↦ rw (read, moved_url) (tidy-IsTop u h.1)
  | inr unread ↦ rw (unread, moved_url) h
]

char_of-safe :
    (t : String) (i : ℕ) → contains_unsafe t ≡ false → is_unsafe (code (char_of t i)) ≡ false
unfolding char_of contains_unsafe
char_of-safe [] i h = refl
char_of-safe (c ∷ t) zero h = ground arith
char_of-safe (c ∷ t) (suc i) h = char_of-safe t i (ground arith)

lower_hex-safe : (i : ℕ) → is_unsafe (code (char_of lower_hex i)) ≡ false
unfolding contains_unsafe
lower_hex-safe i = char_of-safe lower_hex i refl

hex_bytes-safe : (bs : Bytes) → contains_unsafe (hex_bytes bs) ≡ false
unfolding hex_bytes contains_unsafe
hex_bytes-safe List.[] = refl
hex_bytes-safe (List.◌∷◌ b bs) =
    rw (lower_hex-safe (b / 16)) (rw (lower_hex-safe (b % 16)) (hex_bytes-safe bs))

hex_escape-safe : (s : String) → contains_unsafe s ≡ false → contains_unsafe (hex_escape s) ≡ false
unfolding hex_escape contains_unsafe
hex_escape-safe [] h = refl
hex_escape-safe (c ∷ s) h = elim (Bool-cases (ltb (code c) 0x80)) [
  | inl ascii ↦ rw ascii (ground (arith, hex_escape-safe s))
  | inr wide ↦ rw wide (
      contains_unsafe-append (hex_bytes (utf8_char (code c))) (hex_escape s)
      ∙ rw (hex_bytes-safe (utf8_char (code c))) (hex_escape-safe s (ground arith)))
]

hex_bytes-first :
    (bs : Bytes) (s : String)
    → is_slash_first s ≡ false
    → is_slash_first (hex_bytes bs ++ s) ≡ false
unfolding hex_bytes
hex_bytes-first List.[] s h = rw nil-append h
hex_bytes-first (List.◌∷◌ b bs) s h = rw cons-append refl

utf8_char-given : (c : ℕ) → utf8_char c ≢ List.[]
unfolding utf8_char
utf8_char-given c h = ground arith

hex_escape-first : (s : String) → is_slash_first s ≡ false → is_slash_first (hex_escape s) ≡ false
unfolding hex_escape
hex_escape-first [] h = refl
hex_escape-first (c ∷ s) h = elim (Bool-cases (ltb (code c) 0x80)) [
  | inl ascii ↦ rw ascii h
  | inr wide ↦ rw wide (of_bytes (utf8_char (code c)) (utf8_char-given (code c)))
]
  where
    of_bytes : (bs : Bytes) → bs ≢ List.[] → is_slash_first (hex_bytes bs ++ hex_escape s) ≡ false
    of_bytes List.[] given = absurd (given refl)
    of_bytes (List.◌∷◌ b bs) given = rw cons-append refl

hex_escape-IsTop : (s : String) → IsTop s → IsTop (hex_escape s)
unfolding hex_escape contains_unsafe
hex_escape-IsTop [] h = h
hex_escape-IsTop (c ∷ s) h =
    let ascii : ltb (code c) 0x80 ≡ true = ground arith in
    rw ascii
      (rw (hex_escape-first s (ground arith)) (ground arith), ground (arith, hex_escape-safe s))

IsTop-IsOnSite : (s : String) → IsTop s → IsOnSite s
unfolding has_prefix
IsTop-IsOnSite [] h = cc
IsTop-IsOnSite (c ∷ []) h = rw (browser_reads-safe (c ∷ []) h.1) (ground arith, ground arith)
IsTop-IsOnSite (c ∷ d ∷ s) h = rw (browser_reads-safe (c ∷ d ∷ s) h.1) (ground arith, ground arith)

one_slash-IsTop :
    (p : String)
    → has_prefix p "/" ≡ true
    → has_prefix p "//" ≡ false
    → contains_unsafe p ≡ false
    → IsTop p
unfolding has_prefix
one_slash-IsTop [] a b safe = cc
one_slash-IsTop (c ∷ []) a b safe = (ground arith, safe)
one_slash-IsTop (c ∷ d ∷ s) a b safe = (ground arith, safe)

-- Where a redirect to a path of this site leads, once its path is clean, is on this site.
location-IsOnSite : (u : String) → IsTop u → IsOnSite (location u)
unfolding location
location-IsOnSite u h =
    IsTop-IsOnSite (location u) (hex_escape-IsTop (moved_url u) (moved_url-IsTop u h))

local_path-IsTop : (p : String) → (local_path p ≡ "") ⊎ IsTop (local_path p)
unfolding local_path
local_path-IsTop p =
    elim (Bool-cases (not (has_prefix p "/") || has_prefix p "//" || contains_unsafe p)) [
      | inl foreign ↦ inl (rw (foreign, local_path) refl)
      | inr local ↦
          inr (
            rw (local, local_path) (one_slash-IsTop p (ground arith) (ground arith) (ground arith)))
    ]

admin-IsTop : IsTop "/admin"
unfolding contains_unsafe
admin-IsTop = (refl, refl)

-- Where `login` sends a user on to, for the field next of the form.
pub next-IsOnSite :
    (next : String)
    → IsOnSite (location (if local_path next == "" then "/admin" else local_path next))
next-IsOnSite next = location-IsOnSite _ (elim (Bool-cases (local_path next == "")) [
  | inl blank ↦ rw blank admin-IsTop
  | inr given ↦ rw given (elim (local_path-IsTop next) [
    | inl none_given ↦ ground (arith, eq_iff (local_path next) "")
    | inr here ↦ here
  ])
])
