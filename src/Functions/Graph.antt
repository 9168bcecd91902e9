-- ===== src/Functions/Graph.antt =====
-- `build_call_graph` of backend/reversing_lab/analysis/functions.py.
pub mod Bounds
use reversing_lab.Prelude.{
  ℕ, ◌+◌, ◌≤◌, ◌<◌, ◌≡◌, ◌↔◌, String, Bool, true, false, ◌&&◌, Option, none, some, List, [], ◌∷◌,
  ◌++◌, keep, map, length, take, if◌then◌else◌, ltb, ◌==◌, str_eq,
}
use reversing_lab.Prelude.Sets.{mem, insert}
use reversing_lab.Functions.Model.{Function, Provenance, get_function, by_address}
use reversing_lab.Functions.Explore.{explore}

abbrev pub is_some : Option Function → Bool
is_some none = false
is_some (some f) = true

abbrev pub known_callees : List Function → Option Function → List ℕ
known_callees functions none = []
known_callees functions (some f) = keep (λ callee. is_some (by_address functions callee)) f.callees

-- The callees of the function at an address that are functions themselves.
unfoldable pub callees_of : List Function → ℕ → List ℕ
unfolding by_address
callees_of functions address = known_callees functions (by_address functions address)

abbrev pub addresses : List Function → List ℕ
addresses = map (λ (f : Function). f.address)

abbrev pub search_from : List Function → ℕ → Option Function → Option (List ℕ)
search_from functions depth none = none
search_from functions depth (some root) =
    explore (callees_of functions) depth (length (addresses functions) + 2) root.address

-- `selected`, before the cut; `none` is the error of `get_function` or the end of the fuel.
unfoldable pub select : List Function → Option ℕ → ℕ → Option (List ℕ)
unfolding get_function explore callees_of
select functions none depth = some (addresses functions)
select functions (some root_address) depth =
    search_from functions depth (get_function functions root_address)

-- sorted(selected)
unfoldable pub sorted : List ℕ → List ℕ
unfolding insert
sorted [] = []
sorted (x ∷ xs) = insert x (sorted xs)

pub record CallGraphNode : Type 0 where
  pub address : ℕ
  pub name : String
  pub is_library : Bool
  pub is_entry : Bool
  pub suspicious_score : ℕ
  pub provenance : Provenance

pub record CallGraphEdge : Type 0 where
  pub source : ℕ
  pub target : ℕ
  pub recursive : Bool

pub record CallGraph : Type 0 where
  pub nodes : List CallGraphNode
  pub edges : List CallGraphEdge
  pub root_address : Option ℕ
  pub truncated : Bool

-- by_address[address].user_name or by_address[address].name
abbrev pub display_name : Option String → String → String
display_name none name = name
display_name (some user_name) name = if str_eq user_name "" then name else user_name

abbrev pub node_of : ℕ → Option Function → List CallGraphNode
node_of address none = []
node_of address (some f) =
    record {
      address = address;
      name = display_name f.user_name f.name;
      is_library = f.is_library;
      is_entry = str_eq f.name "entry";
      suspicious_score = f.suspicious_score;
      provenance = f.provenance;
    }
    ∷ []

unfoldable pub nodes_of : List Function → List ℕ → List CallGraphNode
unfolding by_address
nodes_of functions [] = []
nodes_of functions (address ∷ ordered) =
    node_of address (by_address functions address) ++ nodes_of functions ordered

abbrev pub edge_of : ℕ → ℕ → CallGraphEdge
edge_of source target = record { source = source; target = target; recursive = source == target }

unfoldable pub edges_of : List ℕ → List Function → List CallGraphEdge
edges_of selected [] = []
edges_of selected (f ∷ functions) =
    let rest = edges_of selected functions in
    if mem f.address selected
    then map (edge_of f.address) (keep (λ callee. mem callee selected) f.callees) ++ rest
    else rest

-- The cut at max_call_graph_nodes: the new `ordered`, and `truncated`.
unfoldable pub cut : ℕ → List ℕ → List ℕ × Bool
cut max_nodes ordered =
    if ltb max_nodes (length ordered) then (take max_nodes ordered, true) else (ordered, false)

abbrev pub graph_of : ℕ → List Function → Option ℕ → Option (List ℕ) → Option CallGraph
graph_of max_nodes functions root_address none = none
graph_of max_nodes functions root_address (some selected) =
    let (ordered, truncated) = cut max_nodes (sorted selected) in
    some (record {
      nodes = nodes_of functions ordered;
      edges = edges_of ordered functions;
      root_address = root_address;
      truncated = truncated;
    })

unfoldable pub build_call_graph : ℕ → List Function → Option ℕ → ℕ → Option CallGraph
unfolding select sorted cut nodes_of edges_of
build_call_graph max_nodes functions root_address depth =
    graph_of max_nodes functions root_address (select functions root_address depth)
