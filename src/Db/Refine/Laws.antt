-- ===== src/Db/Refine/Laws.antt =====
-- Each statement of internal/db/sqlc on the links does to the table what the store says.
use swosh.Common.{
  String, ◌≡◌, refl, ap, ◌∙◌, inl, inr, not, none, some, List, [], ◌∷◌, arith, ◌==◌, eq_iff,
  if◌then◌else◌, Bool-cases, Option-cases, contains,
}
use swosh.Db
use swosh.Db.{
  Time, Swosh, CreateSwoshParams, ImportSwoshParams, imported, UpdateSwoshParams, DbError, no_rows,
  unique_violation, find_link, edit, edit_links, keep_links, count_links, expires_before,
}
use swosh.Db.Keys.{
  IsKeyed, count_links-some, count_links-none, append-IsKeyed, create_swosh-IsKeyed,
  find_link-append, find_link-id, find_link-keep_links, keep_links-IsKeyed, find_link-touch_swosh,
  touch_swosh-IsKeyed,
}
use swosh.Db.Rename.{find_link-edit_links, update_swosh-IsKeyed}
use swosh.Db.Refine.{
  Command, get, create, import_link, update, touch, delete, delete_many, delete_expired, rows,
  on_table, new_row, delete_in, on_store, meaning, Refines, replies, spec_replies,
}

get-Refines : (id : String) (table : List Swosh) → IsKeyed table → Refines (get id) table
unfolding on_table
get-Refines id table h = record {
  reply = elim (Option-cases (find_link id table)) [
    | inl gone ↦ rw (gone, on_table, Db.get_swosh) refl
    | inr (s, found) ↦ rw (found, on_table, Db.get_swosh) refl
  ];
  lookups = λ k. refl;
  keyed = h;
}

create-Refines :
    (t : Time) (arg : CreateSwoshParams) (table : List Swosh)
    → IsKeyed table
    → Refines (create t arg) table
unfolding on_table
create-Refines t arg table h = elim (Option-cases (find_link arg.id table)) [
  | inl free ↦ record {
    reply = rw (free, Db.create_swosh) refl;
    lookups = λ k. rw (free, Db.create_swosh) (find_link-append k table (new_row t arg) free);
    keyed = create_swosh-IsKeyed t arg table h;
  }
  | inr (s, taken) ↦ record {
    reply = rw (taken, Db.create_swosh) refl;
    lookups = λ k. rw (taken, Db.create_swosh) refl;
    keyed = create_swosh-IsKeyed t arg table h;
  }
]

import-Refines :
    (arg : ImportSwoshParams) (table : List Swosh) → IsKeyed table → Refines (import_link arg) table
unfolding on_table
import-Refines arg table h = elim (Option-cases (find_link arg.id table)) [
  | inl free ↦ record {
    reply = rw (free, Db.import_swosh) refl;
    lookups = λ k. rw (free, Db.import_swosh) (find_link-append k table (imported arg) free);
    keyed = rw (free, Db.import_swosh) (append-IsKeyed table (imported arg) h free);
  }
  | inr (s, taken) ↦ record {
    reply = rw (taken, Db.import_swosh) refl;
    lookups = λ k. rw (taken, Db.import_swosh) refl;
    keyed = rw (taken, Db.import_swosh) h;
  }
]

touch-Refines :
    (t : Time) (id : String) (table : List Swosh) → IsKeyed table → Refines (touch t id) table
unfolding on_table
touch-Refines t id table h = record {
  reply = refl;
  lookups = λ k. find_link-touch_swosh t id k table ∙ ground (arith, eq_iff id k, eq_iff k id);
  keyed = touch_swosh-IsKeyed t id table h;
}

delete-Refines : (id : String) (table : List Swosh) → IsKeyed table → Refines (delete id) table
unfolding on_table Db.delete_swosh
delete-Refines id table h = record {
  reply = elim (Option-cases (find_link id table)) [
    | inl gone ↦ rw gone (ap rows (count_links-none id table gone))
    | inr (s, found) ↦ rw found (ap rows (count_links-some id table s h found))
  ];
  lookups = λ k. find_link-keep_links (λ s. not (s.id == id)) k table h ∙ deleted k;
  keyed = keep_links-IsKeyed (λ s. not (s.id == id)) table h;
}
  where
    deleted :
        (k : String)
        → (elim (find_link k table) [
          | none ↦ none
          | some s ↦ if not (s.id == id) then some s else none
        ])
          ≡ (delete_in id (meaning table) (find_link id table)).1 k
    deleted k = elim (Option-cases (find_link k table)) [
      | inl none_k ↦ ground (arith, eq_iff id k)
      | inr (s, found) ↦
          let key : s.id ≡ k = find_link-id k table s found in
          ground (arith, eq_iff s.id id, eq_iff id k)
    ]

delete_many-Refines :
    (ids : List String) (table : List Swosh) → IsKeyed table → Refines (delete_many ids) table
unfolding on_table Db.delete_swoshes
delete_many-Refines ids table h = record {
  reply = refl;
  lookups = λ k. find_link-keep_links (λ s. not (contains ids s.id)) k table h ∙ deleted k;
  keyed = keep_links-IsKeyed (λ s. not (contains ids s.id)) table h;
}
  where
    deleted :
        (k : String)
        → (elim (find_link k table) [
          | none ↦ none
          | some s ↦ if not (contains ids s.id) then some s else none
        ])
          ≡ (if contains ids k then none else find_link k table)
    deleted k = elim (Option-cases (find_link k table)) [
      | inl none_k ↦ ground arith
      | inr (s, found) ↦ let key : s.id ≡ k = find_link-id k table s found in ground arith
    ]

delete_expired-Refines :
    (t : Time) (table : List Swosh) → IsKeyed table → Refines (delete_expired t) table
unfolding on_table Db.delete_expired_swoshes
delete_expired-Refines t table h = record {
  reply = refl;
  lookups = λ k. find_link-keep_links (λ s. not (expires_before t s)) k table h;
  keyed = keep_links-IsKeyed (λ s. not (expires_before t s)) table h;
}

-- An edit that keeps the id, or that takes a free one.
edited-Refines :
    (arg : UpdateSwoshParams) (table : List Swosh) (s : Swosh)
    → IsKeyed table
    → find_link arg.id table ≡ some s
    → Refines (update arg) table
unfolding on_table Db.update_swosh
edited-Refines arg table s h found = elim (Bool-cases (arg.new_id == arg.id)) [
  | inl same ↦
      let key : arg.new_id ≡ arg.id = (eq_iff arg.new_id arg.id).0 same in
      let found' : find_link arg.new_id table ≡ some s = ap (λ j. find_link j table) key ∙ found in
      record {
        reply =
            rw (found, found', same, Db.update_swosh)
              (ap rows (count_links-some arg.id table s h found));
        lookups = λ k.
            rw (found, found', same, Db.update_swosh)
              (find_link-edit_links arg k table (inl key)
                ∙ rw found (ground (arith, eq_iff arg.new_id k, eq_iff arg.id k)));
        keyed = update_swosh-IsKeyed arg table h;
      }
  | inr moves ↦ elim (Option-cases (find_link arg.new_id table)) [
    | inl free ↦ record {
      reply =
          rw (found, moves, free, Db.update_swosh)
            (ap rows (count_links-some arg.id table s h found));
      lookups = λ k.
          rw (found, moves, free, Db.update_swosh)
            (find_link-edit_links arg k table (inr free) ∙ rw found refl);
      keyed = update_swosh-IsKeyed arg table h;
    }
    | inr (other, taken) ↦ record {
      reply = rw (found, taken, moves, Db.update_swosh) refl;
      lookups = λ k. rw (found, taken, moves, Db.update_swosh) refl;
      keyed = update_swosh-IsKeyed arg table h;
    }
  ]
]

update-Refines :
    (arg : UpdateSwoshParams) (table : List Swosh) → IsKeyed table → Refines (update arg) table
unfolding on_table Db.update_swosh
update-Refines arg table h = elim (Option-cases (find_link arg.id table)) [
  | inl gone ↦ record {
    reply = rw (gone, Db.update_swosh) refl;
    lookups = λ k. rw (gone, Db.update_swosh) refl;
    keyed = update_swosh-IsKeyed arg table h;
  }
  | inr (s, found) ↦ edited-Refines arg table s h found
]

pub on_table-Refines : (c : Command) (table : List Swosh) → IsKeyed table → Refines c table
on_table-Refines (get id) = get-Refines id
on_table-Refines (create t arg) = create-Refines t arg
on_table-Refines (import_link arg) = import-Refines arg
on_table-Refines (update arg) = update-Refines arg
on_table-Refines (touch t id) = touch-Refines t id
on_table-Refines (delete id) = delete-Refines id
on_table-Refines (delete_many ids) = delete_many-Refines ids
on_table-Refines (delete_expired t) = delete_expired-Refines t

-- For any sequence of the statements on links, on a table in which no two rows share an id, the
-- answers are those of a map from ids to links: a row, a number of rows, no rows, or a violation
-- of the primary key; a deletion of many rows answers with no more than that it ran.
pub replies-refine :
    (cs : List Command) (table : List Swosh)
    → IsKeyed table
    → replies cs table ≡ spec_replies cs (meaning table)
unfolding replies
replies-refine [] table h = refl
replies-refine (c ∷ cs) table h =
    let step = on_table-Refines c table h in
    let same : meaning (on_table c table).1 ≡ (on_store c (meaning table)).1 =
      λ i k. step.lookups k i in
    rw step.reply (
      ap (λ rs. (on_store c (meaning table)).0 ∷ rs)
        (replies-refine cs (on_table c table).1 step.keyed ∙ ap (spec_replies cs) same))
