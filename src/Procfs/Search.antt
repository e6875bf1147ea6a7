-- ===== src/Procfs/Search.antt =====
-- The search of a socket's row.
use lib_sager_net_core.Common.{
  ℕ, ◌≡◌, refl, List, [], ◌∷◌, ◌++◌, arith, length, none, some, Option, true, false, get_elem?, ltb,
  if◌then◌else◌, Bool,
}
use lib_sager_net_core.Common.Int.{ℤ, negsuc}
use lib_sager_net_core.Common.Text.{fields, equal_fold}
use lib_sager_net_core.Procfs.{uid_of_field, search_rows}

-- Whether a row is long enough and has the wanted text in the column of the local address.
abbrev pub matches_row : ℕ → ℕ → List ℕ → List ℕ → Bool
matches_row at_local at_uid key row = elim (get_elem? (fields row) at_local) [
  | none ↦ false
  | some address ↦ if ltb at_uid (length (fields row)) then equal_fold key address else false
]

abbrev pub NoMatch : ℕ → ℕ → List ℕ → List (List ℕ) → Type 0
NoMatch at_local at_uid key [] = Unit
NoMatch at_local at_uid key (row ∷ rows) =
    (matches_row at_local at_uid key row ≡ false) × NoMatch at_local at_uid key rows

module _ (atoi : List ℕ → Option ℤ) where
  -- The search answers -1 if no row matches.
  pub search_rows_none :
      (at_local at_uid : ℕ) (key : List ℕ) (rows : List (List ℕ))
      → NoMatch at_local at_uid key rows
      → search_rows atoi at_local at_uid key rows ≡ negsuc 0
  unfolding search_rows
  search_rows_none at_local at_uid key [] h = refl
  search_rows_none at_local at_uid key (row ∷ rows) h =
      ground (arith, search_rows_none at_local at_uid key rows h.1)

  -- The answer is the uid field of the first row that matches: short rows and the rows of other
  -- sockets before it are passed over, and what follows it is not read.
  pub search_rows_first :
      (at_local at_uid : ℕ) (key : List ℕ) (before after : List (List ℕ)) (row : List ℕ)
      → NoMatch at_local at_uid key before
      → matches_row at_local at_uid key row ≡ true
      → search_rows atoi at_local at_uid key (before ++ row ∷ after)
        ≡ uid_of_field atoi (get_elem? (fields row) at_uid)
  unfolding search_rows
  search_rows_first at_local at_uid key [] after row h m = ground arith
  search_rows_first at_local at_uid key (b ∷ before) after row h m =
      ground (arith, search_rows_first at_local at_uid key before after row h.1 m)
