-- ===== src/Docs/Search/Results/FirstPlaces.antt =====
-- The walk of FindChildElement finds the first list of places in the order of the document, among
-- the elements whose ancestors are all divs.
use riscv_simulator_pipeline.Base.{
  ℕ, zero, suc, ◌+◌, ◌<◌, true, false, List, [], ◌∷◌, Option, none, some, ◌≡◌, refl, ap, ◌∙◌, sym,
  Bool-cases, inl, inr, if◌then◌else◌, arith,
}
use riscv_simulator_pipeline.Docs.Dom.{Element, Node, node, Nodes, nil, cons}
use riscv_simulator_pipeline.Docs.Search.Results.Walk.{
  Place, at, next_above, is_div, is_children, next_place, walk, size, size_all, find_child_element,
}

abbrev pub first_of : Option Node → Option Node → Option Node
first_of none b = b
first_of (some a) b = some a

first_of-none : (a : Option Node) → first_of a none ≡ a
first_of-none none = refl
first_of-none (some a) = refl

first_of_assoc : (a b c : Option Node) → first_of (first_of a b) c ≡ first_of a (first_of b c)
first_of_assoc none b c = refl
first_of_assoc (some a) b c = refl

size_above : List Nodes → ℕ
size_above [] = 0
size_above (ns ∷ above) = size_all ns + size_above above

size_place : Option Place → ℕ
unfolding size_above
size_place none = 0
size_place (some (at e children siblings above)) =
    suc (size_all children + size_above (siblings ∷ above))

size-next_above : (above : List Nodes) → size_place (next_above above) ≡ size_above above
unfolding size_place next_above size
size-next_above [] = refl
size-next_above (nil ∷ above) = size-next_above above ∙ omega arith
size-next_above (cons (node e children) siblings ∷ above) = omega arith

module _ (wide : ℕ → ℕ) where
  -- The first list of places in a tree, by recursion on the tree.
  unfoldable mutual
    pub first_in : Node → Option Node
    first_in (node e children) =
        if is_children wide e
        then some (node e children)
        else if is_div wide e
        then first_in_all children
        else none

    pub first_in_all : Nodes → Option Node
    first_in_all nil = none
    first_in_all (cons n ns) = first_of (first_in n) (first_in_all ns)

  first_above : List Nodes → Option Node
  first_above [] = none
  first_above (ns ∷ above) = first_of (first_in_all ns) (first_above above)

  first_place : Option Place → Option Node
  first_place none = none
  first_place (some (at e children siblings above)) =
      first_of (first_in (node e children)) (first_above (siblings ∷ above))

  first-next_above : (above : List Nodes) → first_place (next_above above) ≡ first_above above
  unfolding first_place first_above next_above first_in
  first-next_above [] = refl
  first-next_above (nil ∷ above) = first-next_above above
  first-next_above (cons (node e children) siblings ∷ above) =
      sym (first_of_assoc (first_in (node e children)) (first_in_all siblings) (first_above above))

  pub first_in_found :
      (e : Element) (children : Nodes)
      → is_children wide e ≡ true
      → first_in (node e children) ≡ some (node e children)
  unfolding first_in
  first_in_found e children h = rw h refl

  pub first_in_below :
      (e : Element) (children : Nodes)
      → is_children wide e ≡ false
      → first_in (node e children) ≡ (if is_div wide e then first_in_all children else none)
  unfolding first_in
  first_in_below e children h = rw h refl

  -- A turn that does not return loses nothing that is to be found.
  first-next_place :
      (e : Element) (children siblings : Nodes) (above : List Nodes)
      → is_children wide e ≡ false
      → first_place (next_place wide e children siblings above)
        ≡ first_place (some (at e children siblings above))
  unfolding next_place first_place
  first-next_place e nil siblings above h = elim (Bool-cases (is_div wide e)) [
    | inl div ↦
        rw (first_in_below e nil h, div) (unfold first_in in first-next_above (siblings ∷ above))
    | inr leaf ↦ rw (first_in_below e nil h, leaf) (first-next_above (siblings ∷ above))
  ]
  first-next_place e (cons (node f cs) ns) siblings above h = elim (Bool-cases (is_div wide e)) [
    | inl div ↦
        rw (first_in_below e (cons (node f cs) ns) h, div)
          (unfold first_above in
            unfold first_in_all in
            sym (
              first_of_assoc (first_in (node f cs)) (first_in_all ns)
                (first_of (first_in_all siblings) (first_above above))))
    | inr leaf ↦
        rw (first_in_below e (cons (node f cs) ns) h, leaf) (first-next_above (siblings ∷ above))
  ]

  size-next_place :
      (e : Element) (children siblings : Nodes) (above : List Nodes)
      → size_place (next_place wide e children siblings above)
        < size_place (some (at e children siblings above))
  unfolding next_place size_place size
  size-next_place e nil siblings above = omega (arith, size-next_above (siblings ∷ above))
  size-next_place e (cons (node f cs) ns) siblings above = elim (Bool-cases (is_div wide e)) [
    | inl div ↦ rw div (omega arith)
    | inr leaf ↦ rw leaf (omega (arith, size-next_above (siblings ∷ above)))
  ]

  walk_lem :
      (fuel : ℕ) (p : Option Place) → size_place p < fuel → walk wide fuel p ≡ some (first_place p)
  unfolding walk first_place
  walk_lem zero p h = elim h [ ]
  walk_lem (suc fuel) none h = refl
  walk_lem (suc fuel) (some (at e children siblings above)) h =
      elim (Bool-cases (is_children wide e)) [
        | inl found ↦ rw found (
            ap some (
              sym (
                ap (λ (n : Option Node). first_of n (first_above (siblings ∷ above)))
                  (first_in_found e children found))))
        | inr other ↦ rw other (
            walk_lem fuel (next_place wide e children siblings above)
              (omega (arith, size-next_place e children siblings above))
            ∙ ap some (first-next_place e children siblings above other))
      ]

  -- The fuel of the walk is enough.
  pub walk_total :
      (n : Nodes) → walk wide (suc (size_all n)) (next_above (n ∷ [])) ≡ some (first_in_all n)
  unfolding first_above
  walk_total n =
      walk_lem (suc (size_all n)) (next_above (n ∷ []))
        (unfold size_above in omega (arith, size-next_above (n ∷ [])))
      ∙ ap some (first-next_above (n ∷ []) ∙ first_of-none (first_in_all n))

  -- The walk of FindChildElement through first children, next siblings and parents ends, and
  -- finds the first list of places in the order of the document among the elements below the row
  -- whose ancestors there are all divs, or nothing if there is none.
  pub find_child_element_lem :
      (e : Element) (children : Nodes)
      → find_child_element wide (node e children) ≡ some (first_in_all children)
  unfolding find_child_element
  find_child_element_lem e children = walk_total children
