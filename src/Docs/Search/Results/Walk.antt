-- ===== src/Docs/Search/Results/Walk.antt =====
-- docs/html/search/search.js, FindChildElement of SearchResults: the walk through the elements
-- below a row to the list of its places.
use riscv_simulator_pipeline.Base.{
  ℕ, zero, suc, ◌+◌, Bool, ◌&&◌, List, [], ◌∷◌, Option, none, some, if◌then◌else◌,
}
use riscv_simulator_pipeline.Docs.Text.{codes, text_eq, to_lower_case}
use riscv_simulator_pipeline.Docs.Dom.{Element, Node, node, Nodes, nil, cons, class_name}

-- Where the walk stands: at an element with its children, before its later siblings and the later
-- siblings of each of its ancestors below the row, the nearest first.
pub data Place : Type 0 where
  at : Element → Nodes → Nodes → List Nodes → Place

-- Up until there is a next sibling; `none` is the row itself.
unfoldable pub next_above : List Nodes → Option Place
next_above [] = none
next_above (nil ∷ above) = next_above above
next_above (cons (node e children) siblings ∷ above) = some (at e children siblings above)

-- The nodes of a tree: one turn of the walk for each is enough.
unfoldable mutual
  pub size : Node → ℕ
  size (node e children) = suc (size_all children)

  pub size_all : Nodes → ℕ
  size_all nil = 0
  size_all (cons n ns) = size n + size_all ns

module _ (wide : ℕ → ℕ) where
  -- `element.nodeName.toLowerCase() == 'div'`
  abbrev pub is_div : Element → Bool
  is_div e = text_eq (to_lower_case wide (codes e.node_name)) (codes "div")

  abbrev pub is_children : Element → Bool
  is_children e = is_div e && text_eq (class_name e) (codes "SRChildren")

  -- One turn of the outer loop that does not return: to the first child, to the next sibling, or
  -- up to an ancestor's next sibling.
  unfoldable pub next_place : Element → Nodes → Nodes → List Nodes → Option Place
  unfolding next_above
  next_place e nil siblings above = next_above (siblings ∷ above)
  next_place e (cons (node f children) ns) siblings above =
      if is_div e then some (at f children ns (siblings ∷ above)) else next_above (siblings ∷ above)

  -- The outer loop; the inner `none` is `undefined`, the outer one fuel that ran out.
  unfoldable pub walk : ℕ → Option Place → Option (Option Node)
  unfolding next_place
  walk zero p = none
  walk (suc fuel) none = some none
  walk (suc fuel) (some (at e children siblings above)) =
      let rest = walk fuel (next_place e children siblings above) in
      if is_children e then some (some (node e children)) else rest

  -- FindChildElement on the element with the id, which the caller has looked up; the inner `none` is
  -- `undefined`, the outer one fuel that ran out.
  unfoldable pub find_child_element : Node → Option (Option Node)
  unfolding walk size_all
  find_child_element (node e children) = walk (suc (size_all children)) (next_above (children ∷ []))

-- What a caller reads: `undefined` if the walk did not end, which it does.
abbrev pub element_found : Option (Option Node) → Option Node
element_found none = none
element_found (some n) = n
