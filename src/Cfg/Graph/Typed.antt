-- ===== src/Cfg/Graph/Typed.antt =====
-- The typed edges of backend/reversing_lab/disassembler/cfg.py against the plain ones.
use reversing_lab.Prelude.{
  ℕ, String, if_keeps, if_true, if_false, ◌≡◌, refl, sym, ap, Bool, true, false, not, ◌&&◌, ◌||◌,
  Option, none, some, List, [], ◌∷◌, ◌++◌, if◌then◌else◌, arith, map, Bool-cases, ◌∙◌,
}
use mathlib.Core.List.{append-nil, append_assoc}
use reversing_lab.Cfg.Classify.{
  Instruction, next_address, is_jump, is_return, direct_target, falls_through, is_call, is_none,
  is_bare,
}
use reversing_lab.Cfg.Graph.{
  CfgEdge, leader_to_id, to_list, target_ids, successors_of, dedupe, last_of, edges_of, jump_edges,
  block_edge, indirect_or, last_edges, call_edges, typed_edges,
}

abbrev pub to_pair : ℕ → Option ℕ → List (ℕ × ℕ)
to_pair source none = []
to_pair source (some target) = (source, target) ∷ []

-- The edges that have a target, as pairs.
abbrev pub targeted : List CfgEdge → List (ℕ × ℕ)
targeted [] = []
targeted (edge ∷ edges) = to_pair edge.source edge.target ++ targeted edges

targeted-append : (xs ys : List CfgEdge) → targeted (xs ++ ys) ≡ targeted xs ++ targeted ys
targeted-append [] ys = refl
targeted-append (x ∷ xs) ys =
    ap (λ t. to_pair x.source x.target ++ t) (targeted-append xs ys)
    ∙ sym (append_assoc (to_pair x.source x.target) (targeted xs) (targeted ys))

targeted-block_edge :
    (id : ℕ) (kind : String) (insn : Instruction) (target_address : Option ℕ) (ts : List ℕ)
    → targeted (map (block_edge id kind insn target_address) ts) ≡ edges_of id ts
targeted-block_edge id kind insn target_address [] = refl
targeted-block_edge id kind insn target_address (t ∷ ts) =
    ap (λ rest. (id, t) ∷ rest) (targeted-block_edge id kind insn target_address ts)

targeted-call_edges : (id : ℕ) (insns : List Instruction) → targeted (call_edges id insns) ≡ []
unfolding call_edges
targeted-call_edges id [] = refl
targeted-call_edges id (insn ∷ insns) =
    let rest = targeted-call_edges id insns in
    if_keeps (λ es. targeted es ≡ []) (is_call insn) _ _ (λ call. rest) (λ other. rest)

targeted-jump_edges :
    (id : ℕ) (last : Instruction) (target_address : ℕ) (ts : List ℕ)
    → targeted (jump_edges id last target_address ts) ≡ edges_of id ts
unfolding jump_edges
targeted-jump_edges id last target_address [] = refl
targeted-jump_edges id last target_address (t ∷ ts) =
    ap (λ rest. (id, t) ∷ rest)
      (targeted-block_edge id (if falls_through last then "fallthrough" else "unconditional") last
        none ts)

never_falls :
    (jump bare : Bool) (o : Option ℕ)
    → o ≡ none
    → (jump && not (jump && (bare || is_none o))) ≡ false
never_falls jump bare o h = ground (arith, h, Bool-cases jump, Bool-cases bare)

-- A branch without a direct target does not fall through.
falls_through-indirect :
    (last : Instruction) → direct_target last ≡ none → falls_through last ≡ false
unfolding falls_through
falls_through-indirect last unknown =
    never_falls (is_jump last) (is_bare last.mnemonic) (direct_target last) unknown

return-no_successors :
    (leaders : List ℕ) (last : Instruction)
    → is_return last ≡ true
    → successors_of leaders last ≡ []
unfolding successors_of
return-no_successors leaders last ret = if_true (is_return last) [] _ ret

indirect-no_successors :
    (leaders : List ℕ) (last : Instruction)
    → is_return last ≡ false
    → is_jump last ≡ true
    → direct_target last ≡ none
    → successors_of leaders last ≡ []
unfolding successors_of
indirect-no_successors leaders last no_return jump unknown =
    if_false (is_return last) _ _ no_return
    ∙ if_true (is_jump last) _ _ jump
    ∙ ap
        (λ o.
          target_ids leaders o
          ++ (if falls_through last
              then to_list (leader_to_id leaders (next_address last))
              else []))
        unknown
    ∙ if_false (falls_through last) _ [] (falls_through-indirect last unknown)

targeted-indirect_or :
    (id : ℕ) (last : Instruction) (ts : List ℕ) (o : Option ℕ)
    → (o ≡ none → ts ≡ [])
    → targeted (indirect_or id last ts o) ≡ edges_of id ts
targeted-indirect_or id last ts none h = sym (ap (edges_of id) (h refl))
targeted-indirect_or id last ts (some target_address) h =
    targeted-jump_edges id last target_address ts

targeted-last_edges :
    (leaders : List ℕ) (id : ℕ) (last : Instruction)
    → let successors = dedupe [] (successors_of leaders last) in
      targeted (last_edges id last successors) ≡ edges_of id successors
unfolding last_edges dedupe
targeted-last_edges leaders id last =
    let successors = dedupe [] (successors_of leaders last) in
    if_keeps (λ es. targeted es ≡ edges_of id successors) (is_return last) _ _
      (λ ret. sym (ap (λ ss. edges_of id (dedupe [] ss)) (return-no_successors leaders last ret)))
      (λ no_return.
        if_keeps (λ es. targeted es ≡ edges_of id successors) (is_jump last) _ _
          (λ jump. targeted-indirect_or id last successors (direct_target last) (λ unknown.
            ap (dedupe []) (indirect-no_successors leaders last no_return jump unknown)))
          (λ plain. targeted-block_edge id "fallthrough" last none successors))

-- The typed edges of a block that have a target are its plain edges, in their order.
pub typed_edges-eq-edges :
    (leaders : List ℕ) (id : ℕ) (insn : Instruction) (insns : List Instruction)
    → let successors = dedupe [] (successors_of leaders (last_of insn insns)) in
      targeted (typed_edges id insn insns successors) ≡ edges_of id successors
unfolding typed_edges
typed_edges-eq-edges leaders id insn insns =
    let successors = dedupe [] (successors_of leaders (last_of insn insns)) in
    let last = last_edges id (last_of insn insns) successors in
    targeted-append last (call_edges id (insn ∷ insns))
    ∙ ap (λ t. targeted last ++ t) (targeted-call_edges id (insn ∷ insns))
    ∙ append-nil (targeted last)
    ∙ targeted-last_edges leaders id (last_of insn insns)

-- A branch that falls through and whose target is not the beginning of a block has one typed edge: it
-- leads to the block behind the branch, and bears the kind and the target address of the branch taken.
pub outside_target_edge :
    (leaders : List ℕ) (id fall target : ℕ) (last : Instruction)
    → is_return last ≡ false
    → is_jump last ≡ true
    → falls_through last ≡ true
    → direct_target last ≡ some target
    → leader_to_id leaders target ≡ none
    → leader_to_id leaders (next_address last) ≡ some fall
    → last_edges id last (dedupe [] (successors_of leaders last))
      ≡ block_edge id "conditional" last (some target) fall ∷ []
unfolding last_edges jump_edges successors_of dedupe
outside_target_edge leaders id fall target last no_return jump falls direct outside behind =
    let targets = ap (target_ids leaders) direct ∙ ap to_list outside in
    let falling =
      if_true (falls_through last) (to_list (leader_to_id leaders (next_address last))) [] falls
      ∙ ap to_list behind in
    let successors =
      if_false (is_return last) _ _ no_return
      ∙ if_true (is_jump last) _ _ jump
      ∙ (λ i. targets i ++ falling i) in
    let kind = if_true (falls_through last) "conditional" "unconditional" falls in
    ap (λ ss. last_edges id last (dedupe [] ss)) successors
    ∙ if_false (is_return last) _ _ no_return
    ∙ if_true (is_jump last) _ _ jump
    ∙ ap (indirect_or id last (fall ∷ [])) direct
    ∙ ap (λ k. block_edge id k last (some target) fall ∷ []) kind
