-- ===== src/Web/Login/Local.antt =====
-- Where the redirects of internal/web/authn.go, i18n.go and theme.go lead.
use Prim.Native.String.{String}
use swosh.Common.{
  code, ◌≡◌, refl, ◌⊎◌, inl, inr, true, false, not, ◌||◌, Option, none, some, arith, ◌==◌, eqb,
  if◌then◌else◌, Bool-cases,
}
use swosh.Web.Http.{Request}
use swosh.Web.Login.{contains_unsafe, local_path, or_front, back_to}
use swosh.Common.Text.Prefix.{has_prefix}

-- How a browser reads a path: tabs and line breaks are dropped, and a backslash is a slash.
unfoldable pub browser_reads : String → String
browser_reads String.[] = ""
browser_reads (String.◌∷◌ c s) =
    let rest = browser_reads s in
    if eqb (code c) 0x09 || eqb (code c) 0x0a || eqb (code c) 0x0d
    then rest
    else if eqb (code c) 0x5c
    then String.◌∷◌ "/" rest
    else String.◌∷◌ c rest

-- A browser takes a path for one on this site: it starts with a slash, and not with two, behind
-- which the name of another site would stand.
abbrev pub IsOnSite : String → Type 0
IsOnSite p = (has_prefix (browser_reads p) "/" ≡ true) × (has_prefix (browser_reads p) "//" ≡ false)

pub browser_reads-safe : (p : String) → contains_unsafe p ≡ false → browser_reads p ≡ p
unfolding browser_reads contains_unsafe
browser_reads-safe String.[] h = refl
browser_reads-safe (String.◌∷◌ c s) h = ground (arith, browser_reads-safe s)

-- `localPath` gives the empty text or the path that it was given, which then is on this site:
-- where tabs and line breaks are dropped and backslashes are read as slashes, it starts with one
-- slash and not with two.
pub local_path-IsOnSite :
    (p : String) → (local_path p ≡ "") ⊎ ((local_path p ≡ p) × IsOnSite (local_path p))
unfolding local_path
local_path-IsOnSite p =
    elim (Bool-cases (not (has_prefix p "/") || has_prefix p "//" || contains_unsafe p)) [
      | inl foreign ↦ inl (rw (foreign, local_path) refl)
      | inr local ↦
          let safe = browser_reads-safe p (ground arith) in
          inr (rw (local, local_path) (refl, (rw safe (ground arith), rw safe (ground arith))))
    ]

front-IsOnSite : IsOnSite "/"
unfolding browser_reads has_prefix
front-IsOnSite = (refl, refl)

pub admin-IsOnSite : IsOnSite "/admin"
unfolding browser_reads has_prefix
admin-IsOnSite = (refl, refl)

-- `backTo` gives a path on this site, whatever the request and its Referer are.
pub back_to-IsOnSite : (r : Request) → IsOnSite (back_to r)
unfolding back_to
back_to-IsOnSite r = of_referer r.referer
  where
    of_path : (q p : String) → (p ≡ "") ⊎ ((p ≡ q) × IsOnSite p) → IsOnSite (or_front p)
    of_path q p (inl blank) = rw blank front-IsOnSite
    of_path q p (inr (same, here)) = elim (Bool-cases (p == "")) [
      | inl blank ↦ rw blank front-IsOnSite
      | inr given ↦ rw given here
    ]

    of_referer :
        (o : Option (String × String))
        → IsOnSite (elim o [
          | none ↦ "/"
          | some (host, uri) ↦ if not (host == r.host) then "/" else or_front (local_path uri)
        ])
    of_referer none = front-IsOnSite
    of_referer (some (host, uri)) = elim (Bool-cases (not (host == r.host))) [
      | inl other ↦ rw other front-IsOnSite
      | inr own ↦ rw own (of_path uri (local_path uri) (local_path-IsOnSite uri))
    ]
