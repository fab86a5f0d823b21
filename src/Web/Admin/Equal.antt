-- ===== src/Web/Admin/Equal.antt =====
-- Deleting many links at once in internal/web/admin.go, and one by one.
use swosh.Common.{
  ℕ, ◌≤◌, String, ◌≡◌, refl, sym, ap, ◌∙◌, false, not, ◌||◌, some, List, [], ◌∷◌, arith, ◌==◌,
  eq_iff, ltb, eqb, length, contains,
}
use swosh.Db
use swosh.Db.{Swosh, keep_links}
use swosh.World.{World}
use swosh.World.Store
use swosh.Web.Http.{Request, Response}
use swosh.Web.Server.{Server}
use swosh.Web.Authn.{Principal}
use swosh.Web.Admin.Handlers.{admin_delete, admin_delete_many, delete_ids}

-- A row stays in two deletions if it stays in each.
keep_links-cons :
    (id : String) (ids : List String) (table : List Swosh)
    → keep_links (λ s. not (contains ids s.id)) (keep_links (λ s. not (s.id == id)) table)
      ≡ keep_links (λ s. not (contains (id ∷ ids) s.id)) table
unfolding keep_links
keep_links-cons id ids [] = refl
keep_links-cons id ids (t ∷ table) =
    ground (arith, keep_links-cons id ids table, eq_iff t.id id, eq_iff id t.id)

keep_links-all : (table : List Swosh) → keep_links (λ s. not (contains [] s.id)) table ≡ table
unfolding keep_links
keep_links-all [] = refl
keep_links-all (t ∷ table) = ground (arith, keep_links-all table)

module _ (s : Server) (b : Response) (r : Request) (p : Principal) where
  -- `adminDelete` for each id in turn
  unfoldable pub delete_each : List String → World → World
  unfolding admin_delete
  delete_each [] w = w
  delete_each (id ∷ ids) w = delete_each ids (admin_delete s b (record r { path_id = id }) p w).1

  module _ (up : (n : ℕ) → s.outside.down n ≡ false) where
    one-links :
        (id : String) (w : World)
        → (admin_delete s b (record r { path_id = id }) p w).1.links
          ≡ keep_links (λ t. not (t.id == id)) w.links
    unfolding admin_delete Store.delete_swosh Db.delete_swosh
    one-links id w = rw (up w.statements, admin_delete) refl

    each-links :
        (ids : List String) (w : World)
        → (delete_each ids w).links ≡ keep_links (λ t. not (contains ids t.id)) w.links
    unfolding delete_each
    each-links [] w = sym (keep_links-all w.links)
    each-links (id ∷ ids) w =
        each-links ids (admin_delete s b (record r { path_id = id }) p w).1
        ∙ ap (keep_links (λ t. not (contains ids t.id))) (one-links id w)
        ∙ keep_links-cons id ids w.links

    -- If the body names 1 to 1000 ids and no statement fails, `adminDeleteMany` leaves the links
    -- that `adminDelete` of each id in turn leaves.
    pub admin_delete_many-each :
        (ids : List String) (w : World)
        → r.ids_body ≡ some ids
        → 1 ≤ length ids
        → length ids ≤ 1000
        → (admin_delete_many s b r p w).1.links ≡ (delete_each ids w).links
    unfolding admin_delete_many Store.delete_swoshes Db.delete_swoshes
    admin_delete_many-each ids w body lo hi =
        let few : (eqb (length ids) 0 || ltb 1000 (length ids)) ≡ false = ground arith in
        ap (λ o. (delete_ids s b o w).1.links) body
        ∙ rw (few, up w.statements) refl
        ∙ sym (each-links ids w)
