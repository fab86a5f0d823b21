-- ===== src/Web/Mux/Match/Misses.antt =====
-- When the patterns that start with a word do not matter for a path that starts otherwise, in the
-- routing of net/http.
use swosh.Common.{
  String, ◌≡◌, refl, Bool, true, false, not, ◌&&◌, ◌||◌, none, List, [], ◌∷◌, arith, ◌==◌, contains,
}
use swosh.Web.Mux.Match.{
  Segment, literal, wildcard, Node, child, wild_child, leaf, match_path, with_value,
}

-- Whether a path has the shape of a pattern's.
unfoldable pub fits_path : List String → List Segment → Bool
fits_path [] [] = true
fits_path [] (x ∷ left) = false
fits_path (k ∷ ks) [] = false
fits_path (k ∷ ks) (literal l ∷ left) = l == k && fits_path ks left
fits_path (k ∷ ks) (wildcard ∷ left) = fits_path ks left

none_fits : List String → Node → Bool
none_fits ks [] = true
none_fits ks ((left, p) ∷ n) = not (fits_path ks left) && none_fits ks n

child-none_fits :
    (k : String) (ks : List String) (n : Node)
    → none_fits (k ∷ ks) n ≡ true
    → none_fits ks (child k n) ≡ true
unfolding child none_fits fits_path
child-none_fits k ks [] h = refl
child-none_fits k ks (([], p) ∷ n) h = child-none_fits k ks n (ground arith)
child-none_fits k ks ((wildcard ∷ left, p) ∷ n) h = child-none_fits k ks n (ground arith)
child-none_fits k ks ((literal l ∷ left, p) ∷ n) h = ground (arith, child-none_fits k ks n)

wild_child-none_fits :
    (k : String) (ks : List String) (n : Node)
    → none_fits (k ∷ ks) n ≡ true
    → none_fits ks (wild_child n) ≡ true
unfolding wild_child none_fits fits_path
wild_child-none_fits k ks [] h = refl
wild_child-none_fits k ks (([], p) ∷ n) h = wild_child-none_fits k ks n (ground arith)
wild_child-none_fits k ks ((wildcard ∷ left, p) ∷ n) h = ground (arith, wild_child-none_fits k ks n)
wild_child-none_fits k ks ((literal l ∷ left, p) ∷ n) h = wild_child-none_fits k ks n (ground arith)

leaf-none_fits : (n : Node) → none_fits [] n ≡ true → leaf n ≡ none
unfolding leaf none_fits fits_path
leaf-none_fits [] h = refl
leaf-none_fits (([], p) ∷ n) h = cc
leaf-none_fits ((x ∷ left, p) ∷ n) h = leaf-none_fits n (ground arith)

match_path-none_fits :
    (ks : List String) (n : Node) → none_fits ks n ≡ true → match_path ks n ≡ none
unfolding match_path
match_path-none_fits ks [] h = refl
match_path-none_fits [] (c ∷ n) h = rw (leaf-none_fits (c ∷ n) h) refl
match_path-none_fits (k ∷ ks) (c ∷ n) h =
    rw
      (
        match_path-none_fits ks (child k (c ∷ n)) (child-none_fits k ks (c ∷ n) h),
        match_path-none_fits ks (wild_child (c ∷ n)) (wild_child-none_fits k ks (c ∷ n) h),
      )
      refl

-- Whether no pattern that starts with a word fits, unless it is one of the given words.
unfoldable pub misses : List String → List String → Node → Bool
misses words ks [] = true
misses words ks (([], p) ∷ n) = misses words ks n
misses words ks ((wildcard ∷ left, p) ∷ n) = misses words ks n
misses words ks ((literal l ∷ left, p) ∷ n) =
    (contains words l || not (fits_path ks left)) && misses words ks n

module _ (words : List String) (x : String)
    (no_word : (l : String) → contains words l ≡ true → l == x ≡ false) where
  child-misses :
      (ks : List String) (n : Node) → misses words ks n ≡ true → none_fits ks (child x n) ≡ true
  unfolding child misses none_fits
  child-misses ks [] h = refl
  child-misses ks (([], p) ∷ n) h = child-misses ks n h
  child-misses ks ((wildcard ∷ left, p) ∷ n) h = child-misses ks n h
  child-misses ks ((literal l ∷ left, p) ∷ n) h = ground (arith, no_word l, child-misses ks n)

  pub match_path-misses :
      (ks : List String) (n : Node)
      → misses words ks n ≡ true
      → match_path (x ∷ ks) n ≡ with_value x (match_path ks (wild_child n))
  unfolding match_path wild_child
  match_path-misses ks [] h = refl
  match_path-misses ks (c ∷ n) h =
      rw (match_path-none_fits ks (child x (c ∷ n)) (child-misses ks (c ∷ n) h)) refl
