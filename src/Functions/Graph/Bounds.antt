-- ===== src/Functions/Graph/Bounds.antt =====
-- The extent of the call graph of backend/reversing_lab/analysis/functions.py.
use reversing_lab.Prelude.{
  ℕ, ◌≤◌, ◌≡◌, ◌⊎◌, ◌↔◌, inl, inr, refl, ap, ◌∙◌, Bool, true, false, Option, none, some, List, [],
  ◌∷◌, ◌++◌, keep, map, ◌==◌, arith, All, Bool-cases, if_keeps,
}
use reversing_lab.Prelude.Sets.{mem}
use reversing_lab.Functions.Model.{Function, get_function, by_address, later_or}
use reversing_lab.Functions.Explore.{Walk}
use reversing_lab.Functions.Explore.Exact.{explore_exact}
use reversing_lab.Functions.Graph.{
  is_some, known_callees, callees_of, addresses, select, search_from, CallGraphEdge, edges_of,
  edge_of,
}

later_or_here :
    (o : Option Function) (f : Function) (here : Bool)
    → is_some (later_or o f here) ≡ true
    → (is_some o ≡ true) ⊎ (here ≡ true)
later_or_here none f true h = inr refl
later_or_here none f false h = cc
later_or_here (some g) f here h = inl refl

-- A key of the dictionary is the address of a function.
by_address-mem :
    (functions : List Function) (address : ℕ)
    → is_some (by_address functions address) ≡ true
    → mem address (addresses functions) ≡ true
unfolding by_address
by_address-mem [] address there = cc
by_address-mem (f ∷ functions) address there =
    elim (later_or_here (by_address functions address) f (f.address == address) there) [
      | inl later ↦
          ground (arith, by_address-mem functions address later, Bool-cases (f.address == address))
      | inr here ↦ ground (arith, here)
    ]

keep-within :
    (functions : List Function) (callees : List ℕ)
    → All
        (λ y. mem y (addresses functions) ≡ true)
        (keep (λ callee. is_some (by_address functions callee)) callees)
keep-within functions [] = tt
keep-within functions (y ∷ callees) =
    if_keeps (All (λ y. mem y (addresses functions) ≡ true)) (is_some (by_address functions y)) _ _
      (λ there. (by_address-mem functions y there, keep-within functions callees))
      (λ absent. keep-within functions callees)

known_callees-within :
    (functions : List Function) (o : Option Function)
    → All (λ y. mem y (addresses functions) ≡ true) (known_callees functions o)
known_callees-within functions none = tt
known_callees-within functions (some f) = keep-within functions f.callees

callees_of-within :
    (functions : List Function) (x : ℕ)
    → All (λ y. mem y (addresses functions) ≡ true) (callees_of functions x)
unfolding callees_of
callees_of-within functions x = known_callees-within functions (by_address functions x)

-- From a root that `get_function` finds, the graph has, before it is cut, exactly the functions to which at
-- most `depth` calls lead from the root.
pub select_exact :
    (functions : List Function) (root_address depth : ℕ) (root : Function)
    → get_function functions root_address ≡ some root
    → (set : List ℕ) × (select functions (some root_address) depth ≡ some set)
      × ((x : ℕ)
          → (mem x set ≡ true)
            ↔ ((n : ℕ) × (n ≤ depth) × Walk (callees_of functions) root.address n x))
unfolding select
select_exact functions root_address depth root found_root =
    let (set, e, iff) =
      explore_exact (callees_of functions) root.address depth (addresses functions)
        (callees_of-within functions) in
    (set, ap (search_from functions depth) found_root ∙ e, iff)

All-append :
    (P : CallGraphEdge → Type 0) (xs ys : List CallGraphEdge)
    → All P xs
    → All P ys
    → All P (xs ++ ys)
All-append P [] ys a b = b
All-append P (x ∷ xs) ys a b = (a.0, All-append P xs ys a.1 b)

abbrev pub Joins : List ℕ → CallGraphEdge → Type 0
Joins selected e =
    (mem e.source selected ≡ true)
    × (mem e.target selected ≡ true)
    × (e.recursive ≡ (e.source == e.target))

keep-Joins :
    (selected : List ℕ) (source : ℕ) (callees : List ℕ)
    → mem source selected ≡ true
    → All (Joins selected) (map (edge_of source) (keep (λ callee. mem callee selected) callees))
keep-Joins selected source [] here = tt
keep-Joins selected source (y ∷ callees) here =
    if_keeps (λ ys. All (Joins selected) (map (edge_of source) ys)) (mem y selected) _ _
      (λ there. ((here, there, refl), keep-Joins selected source callees here))
      (λ absent. keep-Joins selected source callees here)

-- Every edge joins two addresses of the set.
pub edges_of-within :
    (selected : List ℕ) (functions : List Function)
    → All (Joins selected) (edges_of selected functions)
unfolding edges_of
edges_of-within selected [] = tt
edges_of-within selected (f ∷ functions) =
    let rest = edges_of-within selected functions in
    if_keeps (All (Joins selected)) (mem f.address selected) _ _
      (λ here. All-append (Joins selected) _ _ (keep-Joins selected f.address f.callees here) rest)
      (λ absent. rest)
