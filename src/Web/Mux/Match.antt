-- ===== src/Web/Mux/Match.antt =====
-- How net/http's ServeMux, which internal/web/web.go registers its patterns with, finds the pattern
-- for a request. A path is the decoded one of the URL, which starts with a slash; a path that
-- net/http would clean first, or one with an escaped slash, is not considered.
pub mod Fits
pub mod Misses
use swosh.Common.{
  ℕ, code, len, ◌≡◌, refl, sym, ap, ◌∙◌, Bool, true, false, not, ◌&&◌, ◌||◌, Option, none, some,
  List, [], ◌∷◌, ◌++◌, map, arith, ◌==◌, eq_iff, eq_refl, ltb, leb, eqb, if◌then◌else◌, Bool-cases,
  Option-cases, contains, is_some,
}
use Prim.Native.String.{String}
use text.Mathlib.Text.{starts_with}
use swosh.Web.Routes.{Route}

-- `strings.Split` at a character: at least one part.
abbrev extend_first : List String → (String → String) → List String
extend_first [] f = []
extend_first (p ∷ ps) f = f p ∷ ps

unfoldable pub split : ℕ → String → List String
split d String.[] = "" ∷ []
split d (String.◌∷◌ c s) =
    let rest = split d s in if eqb (code c) d then "" ∷ rest else extend_first rest (String.◌∷◌ c)

-- The part behind the first character, as of a path behind its first slash.
abbrev pub behind_first : String → String
behind_first String.[] = ""
behind_first (String.◌∷◌ c s) = s

-- The last segment of a path that ends in a slash is empty, which `{$}` stands for.
pub data Segment : Type 0 where
  literal : String → Segment
  wildcard : Segment

unfoldable pub segments : String → List String
unfolding split
segments path = split b'/' (behind_first path)

abbrev parse_segment : String → Segment
parse_segment text =
    if text == "{$}" then literal "" else if starts_with text "{" then wildcard else literal text

-- What a request is given to.
pub data Handler : Type 0 where
  handles : Route → Handler
  serves_file : Handler

-- A method, the segments of a path and the pattern's text for both.
pub record Pattern : Type 0 where
  pub method : String
  pub path : List Segment
  pub text : String
  pub handler : Handler

-- `mux.Handle`
abbrev with_method : List String → String → Handler → Pattern
with_method [] text h = record { method = ""; path = []; text = text; handler = h }
with_method (m ∷ rest) text h = record {
  method = m;
  path = elim rest [ [] ↦ [] | p ∷ _ ↦ map parse_segment (split b'/' (behind_first p)) ];
  text = text;
  handler = h;
}

unfoldable pub handle : String → Handler → Pattern
unfolding split
handle text h = with_method (split b' ' text) text h

-- A node of the routing tree: the patterns that fit so far, each with what is left of its path.
abbrev pub Node : Type 0
Node = List (List Segment × Pattern)

-- The child for a literal segment.
unfoldable pub child : String → Node → Node
child x [] = []
child x (([], p) ∷ n) = child x n
child x ((wildcard ∷ left, p) ∷ n) = child x n
child x ((literal l ∷ left, p) ∷ n) = if l == x then (left, p) ∷ child x n else child x n

-- The child for a wildcard.
unfoldable pub wild_child : Node → Node
wild_child [] = []
wild_child (([], p) ∷ n) = wild_child n
wild_child ((wildcard ∷ left, p) ∷ n) = (left, p) ∷ wild_child n
wild_child ((literal l ∷ left, p) ∷ n) = wild_child n

-- The pattern that ends at a node.
unfoldable pub leaf : Node → Option Pattern
leaf [] = none
leaf (([], p) ∷ n) = some p
leaf ((_ ∷ _, p) ∷ n) = leaf n

abbrev pub first_match :
    Option (Pattern × List String) → Option (Pattern × List String) → Option (Pattern × List String)
first_match (some m) other = some m
first_match none other = other

abbrev pub with_value : String → Option (Pattern × List String) → Option (Pattern × List String)
with_value x none = none
with_value x (some (p, values)) = if x == "" then none else some (p, x ∷ values)

abbrev pub at_leaf : Option Pattern → Option (Pattern × List String)
at_leaf none = none
at_leaf (some p) = some (p, [])

-- `routingNode.matchPath`: a literal child before a wildcard, which takes no empty segment; with
-- the values of the wildcards.
unfoldable pub match_path : List String → Node → Option (Pattern × List String)
unfolding child wild_child leaf
match_path xs [] = none
match_path [] (e ∷ n) = at_leaf (leaf (e ∷ n))
match_path (x ∷ xs) (e ∷ n) =
    first_match (match_path xs (child x (e ∷ n)))
      (with_value x (match_path xs (wild_child (e ∷ n))))

-- The patterns of a method, as the first level of the tree.
unfoldable pub with_patterns : String → List Pattern → Node
with_patterns m [] = []
with_patterns m (p ∷ ps) =
    let rest = with_patterns m ps in if p.method == m then (p.path, p) ∷ rest else rest

-- `routingNode.match`: a pattern for GET also matches HEAD.
unfoldable pub match_method : String → List String → List Pattern → Option (Pattern × List String)
unfolding match_path with_patterns
match_method m path ps = elim (match_path path (with_patterns m ps)) [
  | some found ↦ some found
  | none ↦ if m == "HEAD" then match_path path (with_patterns "GET" ps) else none
]

-- The methods that a path can be asked with, in their order.
unfoldable pub allowed : List String → List String → List Pattern → List String
unfolding match_method
allowed [] path ps = []
allowed (m ∷ ms) path ps =
    let rest = allowed ms path ps in if is_some (match_method m path ps) then m ∷ rest else rest

-- What `ServeMux` does with a request.
pub data Target : Type 0 where
  -- the pattern, and the value of {id}
  found : Pattern → String → Target
  wrong_method : List String → Target
  unknown : Target

abbrev pub first_value : List String → String
first_value [] = ""
first_value (v ∷ vs) = v

abbrev pub known_path : List String → Target
known_path [] = unknown
known_path (m ∷ ms) = wrong_method (m ∷ ms)

abbrev pub target_of : List String → List Pattern → Option (Pattern × List String) → Target
unfolding allowed
target_of path ps (some (p, values)) = found p (first_value values)
target_of path ps none = known_path (allowed ("DELETE" ∷ "GET" ∷ "HEAD" ∷ "POST" ∷ []) path ps)

-- `ServeMux.ServeHTTP`
unfoldable pub lookup_in : List Pattern → String → String → Target
unfolding match_method segments allowed
lookup_in ps method path = target_of (segments path) ps (match_method method (segments path) ps)
