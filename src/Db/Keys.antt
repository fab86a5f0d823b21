-- ===== src/Db/Keys.antt =====
-- The primary key of the links, and what each statement of internal/db/sqlc/swosh.sql.go does to
-- the map from ids to rows that a table stands for.
use swosh.Common.{
  String, Bool, none, some, List, [], ◌∷◌, ◌++◌, ◌==◌, eq_iff, if◌then◌else◌, ◌≡◌, refl, arith,
  Option-cases, inl, inr,
}
use swosh.Db.{
  Time, Swosh, CreateSwoshParams, find_link, create_swosh, keep_links, touch_swosh, count_links,
}

-- No two rows have one id.
abbrev pub IsKeyed : List Swosh → Type 0
IsKeyed [] = Unit
IsKeyed (s ∷ table) = (find_link s.id table ≡ none) × IsKeyed table

pub find_link-append :
    (k : String) (table : List Swosh) (s : Swosh)
    → find_link s.id table ≡ none
    → find_link k (table ++ s ∷ []) ≡ (if s.id == k then some s else find_link k table)
unfolding find_link
find_link-append k [] s h = refl
find_link-append k (t ∷ table) s h =
    ground (arith, find_link-append k table s, eq_iff t.id k, eq_iff s.id k, eq_iff t.id s.id)

pub append-IsKeyed :
    (table : List Swosh) (s : Swosh)
    → IsKeyed table
    → find_link s.id table ≡ none
    → IsKeyed (table ++ s ∷ [])
unfolding find_link
append-IsKeyed [] s h new = (refl, tt)
append-IsKeyed (t ∷ table) s h new = ground (
  arith,
  append-IsKeyed table s h.1,
  find_link-append t.id table s,
  eq_iff t.id s.id,
  eq_iff s.id t.id,
)

pub create_swosh-IsKeyed :
    (created : Time) (arg : CreateSwoshParams) (table : List Swosh)
    → IsKeyed table
    → IsKeyed (create_swosh created arg table).1
unfolding create_swosh
create_swosh-IsKeyed created arg table h = elim (Option-cases (find_link arg.id table)) [
  | inl new ↦ rw (new, create_swosh) (append-IsKeyed table _ h new)
  | inr (s, taken) ↦ rw (taken, create_swosh) h
]

pub find_link-id :
    (k : String) (table : List Swosh) (s : Swosh) → find_link k table ≡ some s → s.id ≡ k
unfolding find_link
find_link-id k [] s h = cc
find_link-id k (t ∷ table) s h = ground (arith, find_link-id k table s, eq_iff t.id k)

-- A deletion leaves the rows that it keeps where they were.
pub find_link-keep_links :
    (p : Swosh → Bool) (k : String) (table : List Swosh)
    → IsKeyed table
    → find_link k (keep_links p table)
      ≡ elim (find_link k table) [ none ↦ none | some s ↦ if p s then some s else none ]
unfolding find_link keep_links
find_link-keep_links p k [] h = refl
find_link-keep_links p k (t ∷ table) h =
    ground (arith, find_link-keep_links p k table h.1, eq_iff t.id k)

pub keep_links-IsKeyed :
    (p : Swosh → Bool) (table : List Swosh) → IsKeyed table → IsKeyed (keep_links p table)
unfolding keep_links
keep_links-IsKeyed p [] h = tt
keep_links-IsKeyed p (t ∷ table) h =
    ground (arith, keep_links-IsKeyed p table h.1, find_link-keep_links p t.id table h.1)

pub find_link-touch_swosh :
    (now : Time) (id k : String) (table : List Swosh)
    → find_link k (touch_swosh now id table) ≡ elim (find_link k table) [
      | none ↦ none
      | some s ↦ some (if k == id then record s { last_accessed_at = some now } else s)
    ]
unfolding find_link touch_swosh
find_link-touch_swosh now id k [] = refl
find_link-touch_swosh now id k (t ∷ table) =
    ground (arith, find_link-touch_swosh now id k table, eq_iff t.id k, eq_iff t.id id, eq_iff k id)

pub touch_swosh-IsKeyed :
    (now : Time) (id : String) (table : List Swosh)
    → IsKeyed table
    → IsKeyed (touch_swosh now id table)
unfolding touch_swosh
touch_swosh-IsKeyed now id [] h = tt
touch_swosh-IsKeyed now id (t ∷ table) h =
    ground (arith, touch_swosh-IsKeyed now id table h.1, find_link-touch_swosh now id t.id table)

pub count_links-none :
    (k : String) (table : List Swosh)
    → find_link k table ≡ none
    → count_links (λ s. s.id == k) table ≡ 0
unfolding find_link count_links
count_links-none k [] h = refl
count_links-none k (t ∷ table) h = ground (arith, count_links-none k table)

-- With a primary key a statement on one id touches at most one row.
pub count_links-some :
    (k : String) (table : List Swosh) (s : Swosh)
    → IsKeyed table
    → find_link k table ≡ some s
    → count_links (λ t. t.id == k) table ≡ 1
unfolding find_link count_links
count_links-some k [] s h e = cc
count_links-some k (t ∷ table) s h e =
    ground (arith, count_links-some k table s h.1, count_links-none k table, eq_iff t.id k)
