-- ===== src/Web/Mux/Links.antt =====
-- Where internal/web/web.go's `routes` sends the requests for the pages of a link.
use swosh.Common.{
  ℕ, ◌≡◌, refl, sym, ap, ◌∙◌, inl, inr, Bool, true, false, not, some, List, [], ◌∷◌, arith, ◌==◌,
  eq_iff, eqb, Bool-cases, contains,
}
use Prim.Native.String.{String, ◌++◌ as ◌<>◌}
use text.Mathlib.TextEquality.{starts_with_iff}
use text.Mathlib.TextBridge.{IsPrefix}
use text.Mathlib.TextLemmas.{nil-append, cons-append, append_assoc}
use swosh.Common.Text.{every}
use swosh.Web.Admin.{valid_id, reserved_ids, is_reserved, is_id_char}
use swosh.Web.Routes.{public_route, preview_route, redirect_route, qr_route}
use swosh.Web.Mux.{public_patterns, is_admin_path, dispatch}
use swosh.Web.Mux.Match.Misses.{fits_path, misses, match_path-misses}
use swosh.Web.Mux.Match.{
  handles, Pattern, handle, split, segments, wild_child, leaf, match_path, with_patterns,
  match_method, found, lookup_in,
}

abbrev no_slash : ℕ → Bool
no_slash c = not (eqb c b'/')

-- A text without slashes is one segment, alone or before a slash.
split-plain : (s : String) → every no_slash s ≡ true → split b'/' s ≡ s ∷ []
unfolding split
split-plain String.[] h = refl
split-plain (String.◌∷◌ c s) h = ground (arith, split-plain s)

split-append :
    (s t : String) → every no_slash s ≡ true → split b'/' (◌<>◌ s (◌<>◌ "/" t)) ≡ s ∷ split b'/' t
unfolding split
split-append String.[] t h = rw (nil-append, cons-append, nil-append) refl
split-append (String.◌∷◌ c s) t h = rw cons-append (ground (arith, split-append s t))

id-no_slash : (s : String) → every is_id_char s ≡ true → every no_slash s ≡ true
id-no_slash String.[] h = refl
id-no_slash (String.◌∷◌ c s) h = ground (arith, id-no_slash s)

abbrev first_of : List String → String
first_of [] = ""
first_of (x ∷ xs) = x

below_admin : (path : String) → IsPrefix "/admin/" path → first_of (segments path) ≡ "admin"
unfolding segments
below_admin path (rest, e) =
    rw (← e) (
      rw (cons-append, append_assoc "admin" "/" rest)
        (ap first_of (split-append "admin" rest refl)))

-- The paths of the admin mux have admin for their first segment.
admin_path-first : (path : String) → is_admin_path path ≡ true → first_of (segments path) ≡ "admin"
unfolding is_admin_path segments split
admin_path-first path h = elim (Bool-cases (path == "/admin")) [
  | inl same ↦ rw ((eq_iff path "/admin").0 same) refl
  | inr longer ↦ below_admin path ((starts_with_iff path "/admin/").0 (ground arith))
]

module _ (id : String) (valid : valid_id id ≡ true)
    (free : is_reserved reserved_ids id ≡ false) where
  plain : every no_slash id ≡ true
  unfolding valid_id
  plain = id-no_slash id (ground arith)

  other : (r : String) → is_reserved reserved_ids r ≡ true → r == id ≡ false
  other r reserved = elim (Bool-cases (r == id)) [
    | inl same ↦ absurd (cc (reserved, free, (eq_iff r id).0 same))
    | inr differs ↦ differs
  ]

  not_empty : id == "" ≡ false
  unfolding valid_id
  not_empty = elim (Bool-cases (id == "")) [
    | inl same ↦ absurd (cc (valid, ap valid_id ((eq_iff id "").0 same)))
    | inr differs ↦ differs
  ]

  empty_differs : "" == id ≡ false
  empty_differs = elim (Bool-cases ("" == id)) [
    | inl same ↦ absurd (cc (not_empty, (eq_iff id "").1 (sym ((eq_iff "" id).0 same))))
    | inr differs ↦ differs
  ]

  is_new : contains ("" ∷ reserved_ids) id ≡ false
  unfolding is_reserved
  is_new =
      rw
        (
          empty_differs,
          other "admin" refl,
          other "api" refl,
          other "lang" refl,
          other "login" refl,
          other "logout" refl,
          other "theme" refl,
        )
        refl

  no_word : (l : String) → contains ("" ∷ reserved_ids) l ≡ true → l == id ≡ false
  no_word l h = elim (Bool-cases (l == id)) [
    | inl same ↦ absurd (cc (h, is_new, ap (contains ("" ∷ reserved_ids)) ((eq_iff l id).0 same)))
    | inr differs ↦ differs
  ]

  not_admin :
      (path : String) (ks : List String) → segments path ≡ id ∷ ks → is_admin_path path ≡ false
  unfolding is_reserved
  not_admin path ks e = elim (Bool-cases (is_admin_path path)) [
    | inl below ↦ absurd (
        cc (
          other "admin" refl,
          (eq_iff "admin" id).1 (sym (admin_path-first path below) ∙ ap first_of e),
        ))
    | inr public ↦ public
  ]

  dispatch-wildcard :
      (path : String) (ks : List String) (p : Pattern)
      → segments path ≡ id ∷ ks
      → misses ("" ∷ reserved_ids) ks (with_patterns "GET" public_patterns) ≡ true
      → match_path ks (wild_child (with_patterns "GET" public_patterns)) ≡ some (p, [])
      → dispatch "GET" path ≡ found p id
  unfolding dispatch lookup_in match_method
  dispatch-wildcard path ks p e missed hit =
      let m : match_path (id ∷ ks) (with_patterns "GET" public_patterns) ≡ some (p, id ∷ []) =
        match_path-misses ("" ∷ reserved_ids) id no_word ks _ missed ∙ rw hit (rw not_empty refl) in
      rw (not_admin path ks e, dispatch) (rw (e, lookup_in) (rw (m, match_method) refl))

  segments-page : segments (◌<>◌ "/" id) ≡ id ∷ []
  unfolding segments
  segments-page = rw (cons-append, nil-append) (split-plain id plain)

  segments-below : (t : String) → segments (◌<>◌ "/" (◌<>◌ id (◌<>◌ "/" t))) ≡ id ∷ split b'/' t
  unfolding segments
  segments-below t = rw (cons-append, nil-append) (split-append id t plain)

  -- For every id of 1 to 64 letters, digits, - and _ that is not one of the site's paths, GET of
  -- the id, of /redir below it and of /qr below it is given to the preview, the redirect and the
  -- QR code of that id.
  pub dispatch-pages :
      (dispatch "GET" (◌<>◌ "/" id)
        ≡ found (handle "GET /{id}" (handles (public_route preview_route))) id)
      × (dispatch "GET" (◌<>◌ "/" (◌<>◌ id "/redir"))
          ≡ found (handle "GET /{id}/redir" (handles (public_route redirect_route))) id)
      × (dispatch "GET" (◌<>◌ "/" (◌<>◌ id "/qr"))
          ≡ found (handle "GET /{id}/qr" (handles (public_route qr_route))) id)
  unfolding misses fits_path match_path wild_child with_patterns public_patterns leaf handle split
  dispatch-pages = (
    dispatch-wildcard (◌<>◌ "/" id) [] _ segments-page refl refl,
    dispatch-wildcard (◌<>◌ "/" (◌<>◌ id "/redir")) ("redir" ∷ []) _ (segments-below "redir") refl
        refl,
    dispatch-wildcard (◌<>◌ "/" (◌<>◌ id "/qr")) ("qr" ∷ []) _ (segments-below "qr") refl refl,
  )
