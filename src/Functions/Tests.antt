-- ===== src/Functions/Tests.antt =====
-- Runs of the model, and each theorem at an input.
use reversing_lab.Prelude.{ℕ, ◌≤◌, ◌≡◌, ◌↔◌, refl, true, false, none, some, List, [], ◌∷◌}
use reversing_lab.Prelude.Sets.{mem}
use reversing_lab.Store.Table.{find_row}
use reversing_lab.Functions.Model.{Function, heuristic, get_function, by_address}
use reversing_lab.Functions.Explore.{explore, explore_from, visit, Walk}
use reversing_lab.Functions.Graph.{select, callees_of}
use reversing_lab.Functions.Graph.Bounds.{select_exact}

abbrev function_at : ℕ → List ℕ → Function
function_at address callees = record {
  address = address;
  name = "f";
  size = 4;
  callees = callees;
  is_library = false;
  suspicious_score = 0;
  user_name = none;
  provenance = heuristic;
}

-- A cycle of two, a chain, and a callee outside.
abbrev functions : List Function
functions =
    function_at 10 (20 ∷ 30 ∷ 99 ∷ [])
    ∷ function_at 20 (10 ∷ [])
    ∷ function_at 30 (40 ∷ [])
    ∷ function_at 40 (50 ∷ [])
    ∷ function_at 50 []
    ∷ []

-- The address 12 lies in the first function.
two_calls : select functions (some 12) 2 ≡ some (40 ∷ 30 ∷ 20 ∷ 10 ∷ [])
unfolding select get_function find_row explore explore_from visit callees_of by_address
two_calls = refl

select_exact_example :
    (set : List ℕ) × (select functions (some 12) 2 ≡ some set)
    × ((x : ℕ) → (mem x set ≡ true) ↔ ((n : ℕ) × (n ≤ 2) × Walk (callees_of functions) 10 n x))
unfolding get_function find_row
select_exact_example = select_exact functions 12 2 (function_at 10 (20 ∷ 30 ∷ 99 ∷ [])) refl
