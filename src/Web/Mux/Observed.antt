-- ===== src/Web/Mux/Observed.antt =====
-- What `instrument` of internal/web/web.go labels the durations of requests with.
use swosh.Common.{String, Bool, List, ◌∷◌, map, contains}
use Prim.Native.String.{◌++◌ as ◌<>◌}
use swosh.Swish.Qr.{Swish}
use swosh.Web.Server.{Server}
use swosh.Web.Mux.{static_files, uri_label}
use swosh.Web.Mux.Match.{Pattern}

-- The templates of the site's paths, and the label for a request that no pattern fits.
abbrev pub uri_labels : List String
uri_labels =
    "NOT_FOUND"
    ∷ "/"
    ∷ "/login"
    ∷ "/logout"
    ∷ "/lang"
    ∷ "/theme"
    ∷ "/api/create"
    ∷ "/{id}"
    ∷ "/{id}/redir"
    ∷ "/{id}/qr"
    ∷ "/admin"
    ∷ "/admin/"
    ∷ "/admin/{id}"
    ∷ map (◌<>◌ "/") static_files

abbrev is_labelled : Pattern → Bool
unfolding uri_label
is_labelled p = contains uri_labels (uri_label p.text)
