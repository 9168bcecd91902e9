-- ===== src/Functions/Model.antt =====
-- `FunctionAnalysis` of backend/reversing_lab/analysis/models.py, as far as the call graph of
-- backend/reversing_lab/analysis/functions.py reads it, with `get_function`.
use reversing_lab.Prelude.{
  ℕ, ◌+◌, String, Bool, true, false, ◌&&◌, Option, none, some, List, [], ◌∷◌, leb, ltb, ◌==◌,
}
use reversing_lab.Store.Table.{find_row}

pub data Provenance : Type 0 where
  verified heuristic inferred dynamic user : Provenance

pub record Function : Type 0 where
  pub address : ℕ
  pub name : String
  pub size : ℕ
  pub callees : List ℕ
  pub is_library : Bool
  pub suspicious_score : ℕ
  pub user_name : Option String
  pub provenance : Provenance

abbrev pub is_at : ℕ → Function → Bool
is_at address f = f.address == address

abbrev pub contains : ℕ → Function → Bool
contains address f = leb f.address address && ltb address (f.address + f.size)

abbrev pub or_containing : Option Function → Option Function → Option Function
or_containing none other = other
or_containing (some f) other = some f

-- `none` is the `DisassemblyError`.
unfoldable pub get_function : List Function → ℕ → Option Function
unfolding find_row
get_function functions address =
    or_containing (find_row (is_at address) functions) (find_row (contains address) functions)

abbrev pub later_or : Option Function → Function → Bool → Option Function
later_or (some f) g here = some f
later_or none g true = some g
later_or none g false = none

-- by_address.get(address): of two functions at one address the dictionary has the last.
unfoldable pub by_address : List Function → ℕ → Option Function
by_address [] address = none
by_address (f ∷ functions) address =
    later_or (by_address functions address) f (f.address == address)
