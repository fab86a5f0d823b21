-- ===== src/Db/Listing.antt =====
-- The order in which internal/db/sqlc/swosh.sql.go lists the links.
use swosh.Common.{String, ◌≡◌, ◌⊎◌, Bool, true, List, [], ◌∷◌, All}
use swosh.Db.{Swosh, stands_before}
use mathlib.Core.List.{Perm}
use mathlib.Core.List.Perm

-- What the database's collation orders ids by.
pub record IsCollation (id_le : String → String → Bool) : Type 0 where
  pub total : (a b : String) → (id_le a b ≡ true) ⊎ (id_le b a ≡ true)
  pub transitive : (a b c : String) → id_le a b ≡ true → id_le b c ≡ true → id_le a c ≡ true

-- No row stands behind one that it belongs before.
abbrev pub IsListed : (String → String → Bool) → List Swosh → Type 0
IsListed id_le [] = Unit
IsListed id_le (a ∷ rows) = All (λ b. stands_before id_le a b ≡ true) rows × IsListed id_le rows
