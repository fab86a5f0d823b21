-- ===== src/Web/Admin/Ids.antt =====
-- The ids that internal/linkid draws, and what internal/web/admin.go takes for an id.
use Prim.Native.String
use Prim.Native.String.{String}
use swosh.Common.{
  ℕ, zero, suc, ◌+◌, ◌<◌, code, len, ◌≡◌, refl, Bool, true, false, ◌&&◌, ◌||◌, List, [], ◌∷◌, arith,
  leb, eqb, length, get_or, all,
}
use swosh.Common.Text.{every}
use swosh.World.{World, Outside, random}
use swosh.Linkid.{adjectives, nouns, verbs, pick, new_id}
use swosh.Web.Admin.{is_id_char, valid_id, reserved_ids, same_lower, is_reserved}
use text.Mathlib.TextLemmas.{nil-append, cons-append}
use text.Mathlib.TextPositions.{len-append}

every-append : (p : ℕ → Bool) (s t : String) → every p (String.◌++◌ s t) ≡ (every p s && every p t)
every-append p String.[] t = rw nil-append refl
every-append p (String.◌∷◌ c s) t = rw cons-append (ground (arith, every-append p s t))

abbrev has_hyphen : String → Bool
has_hyphen String.[] = false
has_hyphen (String.◌∷◌ c s) = eqb (code c) b'-' || has_hyphen s

has_hyphen-append : (s t : String) → has_hyphen (String.◌++◌ s (String.◌++◌ "-" t)) ≡ true
has_hyphen-append String.[] t = rw nil-append (rw cons-append refl)
has_hyphen-append (String.◌∷◌ c s) t = rw cons-append (ground (arith, has_hyphen-append s t))

-- A reserved id with no hyphen is not an id with one, in capitals or not.
same_lower-hyphen :
    (s r : String) → has_hyphen s ≡ true → has_hyphen r ≡ false → same_lower s r ≡ false
unfolding same_lower
same_lower-hyphen String.[] String.[] h g = ground arith
same_lower-hyphen String.[] (String.◌∷◌ d r) h g = refl
same_lower-hyphen (String.◌∷◌ c s) String.[] h g = refl
same_lower-hyphen (String.◌∷◌ c s) (String.◌∷◌ d r) h g = ground (arith, same_lower-hyphen s r)

hyphen-is_reserved : (id : String) → has_hyphen id ≡ true → is_reserved reserved_ids id ≡ false
unfolding is_reserved
hyphen-is_reserved id h = ground (
  arith,
  same_lower-hyphen id "admin" h refl,
  same_lower-hyphen id "api" h refl,
  same_lower-hyphen id "lang" h refl,
  same_lower-hyphen id "login" h refl,
  same_lower-hyphen id "logout" h refl,
  same_lower-hyphen id "theme" h refl,
)

-- A word of the lists: 1 to 20 characters of an id.
abbrev is_word : String → Bool
is_word s = every is_id_char s && leb 1 (len s) && leb (len s) 20

all-get_or :
    (p : String → Bool) (words : List String) (i : ℕ)
    → all p words ≡ true
    → i < length words
    → p (get_or words i "") ≡ true
all-get_or p [] i h lt = absurd (omega arith)
all-get_or p (x ∷ words) zero h lt = ground arith
all-get_or p (x ∷ words) (suc i) h lt = all-get_or p words i (ground arith) (omega arith)

words-valid_id :
    (a n v : String)
    → is_word a ≡ true
    → is_word n ≡ true
    → is_word v ≡ true
    → valid_id (String.◌++◌ a (String.◌++◌ "-" (String.◌++◌ n (String.◌++◌ "-" v)))) ≡ true
unfolding valid_id
words-valid_id a n v ha hn hv = ground (
  arith,
  every-append is_id_char a (String.◌++◌ "-" (String.◌++◌ n (String.◌++◌ "-" v))),
  every-append is_id_char "-" (String.◌++◌ n (String.◌++◌ "-" v)),
  every-append is_id_char n (String.◌++◌ "-" v),
  every-append is_id_char "-" v,
  len-append a (String.◌++◌ "-" (String.◌++◌ n (String.◌++◌ "-" v))),
  len-append "-" (String.◌++◌ n (String.◌++◌ "-" v)),
  len-append n (String.◌++◌ "-" v),
  len-append "-" v,
)

-- If the random numbers are below their bounds, the id that `New` makes has 1 to 64 letters,
-- digits, - and _, as the admin form wants of an id, and is none of the site's paths.
pub new_id-usable :
    (o : Outside) (w : World)
    → ((n max : ℕ) → 0 < max → o.rand_int n max < max)
    → (valid_id (new_id o w).0 ≡ true) × (is_reserved reserved_ids (new_id o w).0 ≡ false)
unfolding new_id pick random
new_id-usable o w below =
    let a = o.rand_int w.draws (length adjectives) in
    let n = o.rand_int (w.draws + 1) (length nouns) in
    let v = o.rand_int (w.draws + 1 + 1) (length verbs) in
    (
      words-valid_id (get_or adjectives a "") (get_or nouns n "") (get_or verbs v "")
          (all-get_or is_word adjectives a refl (below _ _ (omega arith)))
          (all-get_or is_word nouns n refl (below _ _ (omega arith)))
          (all-get_or is_word verbs v refl (below _ _ (omega arith))),
      hyphen-is_reserved _ (has_hyphen-append (get_or adjectives a "") _),
    )
