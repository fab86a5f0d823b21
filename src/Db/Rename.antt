-- ===== src/Db/Rename.antt =====
-- `UpdateSwosh` of internal/db/sqlc/swosh.sql.go: an edit of a row, and a rename under the primary key.
use swosh.Common.{
  String, ap, ◌≤◌, ◌≡◌, refl, subst, ◌≢◌, ◌⊎◌, inl, inr, Option, none, some, List, [], ◌∷◌, arith,
  ◌==◌, eq_iff, eq_refl, if◌then◌else◌, Bool-cases,
}
use swosh.Db.{Swosh, UpdateSwoshParams, find_link, edit, edit_links, update_swosh, count_links}
use swosh.Db.Keys.{IsKeyed}

-- The new id of an edit names no other row.
abbrev pub IsFree : UpdateSwoshParams → List Swosh → Type 0
IsFree arg table = (arg.new_id ≡ arg.id) ⊎ (find_link arg.new_id table ≡ none)

-- An edit as a map entry: what it makes of the row with the edited id.
abbrev pub edited : UpdateSwoshParams → Option Swosh → Option Swosh
edited arg none = none
edited arg (some s) = some (edit arg s)

find_link-edit_links_other :
    (arg : UpdateSwoshParams) (k : String) (table : List Swosh)
    → arg.new_id ≢ k
    → arg.id ≢ k
    → find_link k (edit_links arg table) ≡ find_link k table
unfolding find_link edit_links
find_link-edit_links_other arg k [] ne ne' = refl
find_link-edit_links_other arg k (t ∷ table) ne ne' = ground (
  arith,
  find_link-edit_links_other arg k table ne ne',
  eq_iff t.id k,
  eq_iff t.id arg.id,
  eq_iff arg.new_id k,
)

find_link-edit_links_old :
    (arg : UpdateSwoshParams) (table : List Swosh)
    → arg.new_id ≢ arg.id
    → find_link arg.id (edit_links arg table) ≡ none
unfolding find_link edit_links
find_link-edit_links_old arg [] ne = refl
find_link-edit_links_old arg (t ∷ table) ne =
    ground
      (arith, find_link-edit_links_old arg table ne, eq_iff t.id arg.id, eq_iff arg.new_id arg.id)

find_link-edit_links_new :
    (arg : UpdateSwoshParams) (table : List Swosh)
    → IsFree arg table
    → find_link arg.new_id (edit_links arg table) ≡ edited arg (find_link arg.id table)
unfolding find_link edit_links
find_link-edit_links_new arg [] free = refl
find_link-edit_links_new arg (t ∷ table) free = elim (Bool-cases (t.id == arg.id)) [
  | inl same ↦ rw same (rw eq_refl)
  | inr other ↦ rw other (
      ground
        (arith, find_link-edit_links_new arg table, eq_iff t.id arg.id, eq_iff t.id arg.new_id))
]

-- If the new id of an edit is the old one or of no link, then after the edit of all rows with the
-- old id a lookup under the new id finds the edited row, one under another old id finds none, and
-- one under any other id finds what it found before.
pub find_link-edit_links :
    (arg : UpdateSwoshParams) (k : String) (table : List Swosh)
    → IsFree arg table
    → find_link k (edit_links arg table) ≡ (
        if arg.new_id == k
        then edited arg (find_link arg.id table)
        else if arg.id == k
        then none
        else find_link k table)
find_link-edit_links arg k table free = elim (Bool-cases (arg.new_id == k)) [
  | inl new ↦ rw new (
      subst (λ j. find_link j (edit_links arg table) ≡ edited arg (find_link arg.id table))
        ((eq_iff _ _).0 new) (find_link-edit_links_new arg table free))
  | inr kept ↦ rw kept (elim (Bool-cases (arg.id == k)) [
    | inl old ↦ rw old (
        subst (λ j. find_link j (edit_links arg table) ≡ none) ((eq_iff _ _).0 old)
          (find_link-edit_links_old arg table
            (ground (arith, eq_iff arg.new_id k, eq_iff arg.id k))))
    | inr other ↦ rw other (
        find_link-edit_links_other arg k table (ground (arith, eq_iff arg.new_id k))
          (ground (arith, eq_iff arg.id k)))
  ])
]

edit_links-IsKeyed :
    (arg : UpdateSwoshParams) (table : List Swosh)
    → IsKeyed table
    → IsFree arg table
    → IsKeyed (edit_links arg table)
unfolding edit_links find_link
edit_links-IsKeyed arg [] h free = tt
edit_links-IsKeyed arg (t ∷ table) h free = elim (Bool-cases (t.id == arg.id)) [
  | inl same ↦ rw same (
      ground (
        arith,
        edit_links-IsKeyed arg table h.1,
        find_link-edit_links_new arg table,
        eq_iff t.id arg.id,
        eq_iff t.id arg.new_id,
      ))
  | inr other ↦ rw other (
      ground (
        arith,
        edit_links-IsKeyed arg table h.1,
        find_link-edit_links_other arg t.id table,
        eq_iff t.id arg.id,
        eq_iff t.id arg.new_id,
      ))
]

pub edit_links-absent :
    (arg : UpdateSwoshParams) (table : List Swosh)
    → find_link arg.id table ≡ none
    → edit_links arg table ≡ table
unfolding find_link edit_links
edit_links-absent arg [] h = refl
edit_links-absent arg (t ∷ table) h = ground (arith, edit_links-absent arg table)

-- `UpdateSwosh` keeps the ids of the links unique, also where it renames a link.
pub update_swosh-IsKeyed :
    (arg : UpdateSwoshParams) (table : List Swosh)
    → IsKeyed table
    → IsKeyed (update_swosh arg table).1
unfolding update_swosh
update_swosh-IsKeyed arg table h =
    ground (arith, edit_links-IsKeyed arg table h, eq_iff arg.new_id arg.id)

-- An edit that makes of the row with its id what the row is keeps the table.
pub edit_links-same :
    (arg : UpdateSwoshParams) (s : Swosh) (table : List Swosh)
    → IsKeyed table
    → find_link arg.id table ≡ some s
    → edit arg s ≡ s
    → edit_links arg table ≡ table
unfolding find_link edit_links
edit_links-same arg s [] h found kept = refl
edit_links-same arg s (t ∷ table) h found kept = elim (Bool-cases (t.id == arg.id)) [
  | inl same ↦
      let id : t.id ≡ arg.id = (eq_iff t.id arg.id).0 same in
      let here : t ≡ s = ground arith in
      let gone : find_link arg.id table ≡ none = subst (λ k. find_link k table ≡ none) id h.0 in
      rw same (rw (here, kept, edit_links-absent arg table gone) refl)
  | inr other ↦
      rw other (ap (λ rest. t ∷ rest) (edit_links-same arg s table h.1 (ground arith) kept))
]

pub count_links-found :
    (k : String) (s : Swosh) (table : List Swosh)
    → find_link k table ≡ some s
    → 1 ≤ count_links (λ t. t.id == k) table
unfolding find_link count_links
count_links-found k s [] h = cc
count_links-found k s (t ∷ table) h = ground (arith, count_links-found k s table)
