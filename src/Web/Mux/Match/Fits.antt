-- ===== src/Web/Mux/Match/Fits.antt =====
-- The patterns that net/http finds for the requests to internal/web/web.go pass what tests the
-- registered ones pass.
use swosh.Common.{
  String, ◌≡◌, refl, Bool, true, ◌&&◌, Option, none, some, List, [], ◌∷◌, arith, ◌==◌, all,
}
use swosh.Web.Mux.Match.{
  literal, wildcard, Pattern, Node, child, wild_child, leaf, match_path, with_patterns,
  match_method, at_leaf, with_value, first_match, known_path, target_of, Target, found,
  wrong_method, unknown, lookup_in, segments,
}

-- The patterns of a node pass a test.
unfoldable pub all_in : (Pattern → Bool) → Node → Bool
all_in q [] = true
all_in q ((left, p) ∷ n) = q p && all_in q n

module _ (q : Pattern → Bool) where
  child-all_in : (x : String) (n : Node) → all_in q n ≡ true → all_in q (child x n) ≡ true
  unfolding child all_in
  child-all_in x [] h = refl
  child-all_in x (([], p) ∷ n) h = ground (arith, child-all_in x n)
  child-all_in x ((wildcard ∷ left, p) ∷ n) h = ground (arith, child-all_in x n)
  child-all_in x ((literal l ∷ left, p) ∷ n) h = ground (arith, child-all_in x n)

  wild_child-all_in : (n : Node) → all_in q n ≡ true → all_in q (wild_child n) ≡ true
  unfolding wild_child all_in
  wild_child-all_in [] h = refl
  wild_child-all_in (([], p) ∷ n) h = ground (arith, wild_child-all_in n)
  wild_child-all_in ((wildcard ∷ left, p) ∷ n) h = ground (arith, wild_child-all_in n)
  wild_child-all_in ((literal l ∷ left, p) ∷ n) h = ground (arith, wild_child-all_in n)

  -- The pattern that was found, if one was.
  fits : Option (Pattern × List String) → Bool
  fits none = true
  fits (some (p, values)) = q p

  at_leaf-fits : (n : Node) → all_in q n ≡ true → fits (at_leaf (leaf n)) ≡ true
  unfolding leaf all_in fits
  at_leaf-fits [] h = refl
  at_leaf-fits (([], p) ∷ n) h = ground arith
  at_leaf-fits ((x ∷ left, p) ∷ n) h = at_leaf-fits n (ground arith)

  with_value-fits :
      (x : String) (m : Option (Pattern × List String))
      → fits m ≡ true
      → fits (with_value x m) ≡ true
  unfolding fits
  with_value-fits x none h = refl
  with_value-fits x (some (p, values)) h = ground arith

  first_match-fits :
      (m o : Option (Pattern × List String))
      → fits m ≡ true
      → fits o ≡ true
      → fits (first_match m o) ≡ true
  unfolding fits
  first_match-fits none o h k = k
  first_match-fits (some m) o h k = h

  match_path-fits :
      (xs : List String) (n : Node) → all_in q n ≡ true → fits (match_path xs n) ≡ true
  unfolding match_path fits
  match_path-fits xs [] h = refl
  match_path-fits [] (c ∷ n) h = at_leaf-fits (c ∷ n) h
  match_path-fits (x ∷ xs) (c ∷ n) h =
      first_match-fits _ _ (match_path-fits xs (child x (c ∷ n)) (child-all_in x (c ∷ n) h)) (
        with_value-fits x _ (match_path-fits xs (wild_child (c ∷ n)) (wild_child-all_in (c ∷ n) h)))

  pub with_patterns-all_in :
      (m : String) (ps : List Pattern) → all q ps ≡ true → all_in q (with_patterns m ps) ≡ true
  unfolding with_patterns all_in
  with_patterns-all_in m [] h = refl
  with_patterns-all_in m (p ∷ ps) h = ground (arith, with_patterns-all_in m ps)

  -- The pattern of a target, if it has one.
  abbrev pub target_fits : Target → Bool
  target_fits (found p id) = q p
  target_fits (wrong_method ms) = true
  target_fits unknown = true

  known_path-fits : (ms : List String) → target_fits (known_path ms) ≡ true
  known_path-fits [] = refl
  known_path-fits (m ∷ ms) = refl

  target_of-fits :
      (path : List String) (ps : List Pattern) (f : Option (Pattern × List String))
      → fits f ≡ true
      → target_fits (target_of path ps f) ≡ true
  unfolding fits target_of
  target_of-fits path ps none h = known_path-fits _
  target_of-fits path ps (some (p, values)) h = h

  module _ (m : String) (ps : List Pattern) (own : all_in q (with_patterns m ps) ≡ true)
      (head : m == "HEAD" ≡ true → all_in q (with_patterns "GET" ps) ≡ true) where
    match_method-fits : (path : List String) → fits (match_method m path ps) ≡ true
    unfolding match_method fits
    match_method-fits path = ground (
      arith,
      match_path-fits path (with_patterns m ps) own,
      λ (h : m == "HEAD" ≡ true). match_path-fits path (with_patterns "GET" ps) (head h),
    )

    pub lookup_in-fits : (path : String) → target_fits (lookup_in ps m path) ≡ true
    unfolding lookup_in
    lookup_in-fits path = target_of-fits (segments path) ps _ (match_method-fits (segments path))
