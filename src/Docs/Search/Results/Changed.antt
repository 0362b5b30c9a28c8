-- ===== src/Docs/Search/Results/Changed.antt =====
-- docs/html/search/search.js, SearchResults: the list of places before and after a write to its
-- display.
use mathlib.Core.Option
use mathlib.Core.Option.{some-injective}
use riscv_simulator_pipeline.Base.{
  ℕ, true, false, Option, none, some, ◌≡◌, refl, ap, ◌∙◌, Bool-cases, inl, inr,
}
use riscv_simulator_pipeline.Docs.Text.{Text, text_eq}
use riscv_simulator_pipeline.Docs.Dom.{Element, Node, node, Nodes, nil, cons, id_of}
use riscv_simulator_pipeline.Docs.Search.Results.Walk.{
  is_children, is_div, find_child_element, element_found,
}
use riscv_simulator_pipeline.Docs.Search.Results.FirstPlaces.{
  first_of, first_in, first_in_all, first_in_found, first_in_below, find_child_element_lem,
}
use riscv_simulator_pipeline.Docs.Search.Results.Nav.{
  set_places_in, set_places, update_node, update_nodes,
}
use riscv_simulator_pipeline.Docs.Search.Results.Target.{target, target_all}

-- A node with its display changed.
abbrev pub with_display : (Text → Text) → Node → Node
with_display f (node e children) = node (record e { display = f e.display }) children

module _ (wide : ℕ → ℕ) (f : Text → Text) where
  -- What the first list of places is after the change: nothing is changed if there is none.
  unfoldable pub changed_places : Option Node → Option (Option Node)
  changed_places n = Option.map (λ (m : Node). some (with_display f m)) n

  set_places-cons :
      (n : Node) (ns : Nodes) (r t : Option Node) (s : Option Nodes)
      → first_in wide n ≡ t
      → Option.map (first_in wide) r ≡ changed_places t
      → Option.map (first_in_all wide) s ≡ changed_places (first_in_all wide ns)
      → Option.map
          (first_in_all wide)
          (elim r [ none ↦ Option.map (cons n) s | some m ↦ some (cons m ns) ])
        ≡ changed_places (first_of t (first_in_all wide ns))
  unfolding changed_places first_in
  set_places-cons n ns none none none at h g = g
  set_places-cons n ns none none (some ms) at h g = rw at g
  set_places-cons n ns none (some k) s at h g = cc
  set_places-cons n ns (some m) none s at h g = cc
  set_places-cons n ns (some m) (some k) s at h g =
      ap (Option.map (λ (x : Option Node). first_of x (first_in_all wide ns))) h

  first-deeper :
      (e : Element) (r : Option Nodes)
      → is_children wide e ≡ false
      → is_div wide e ≡ true
      → Option.map (first_in wide) (Option.map (node e) r) ≡ Option.map (first_in_all wide) r
  first-deeper e none other div = refl
  first-deeper e (some ms) other div = rw (first_in_below wide e ms other, div) refl

  mutual
    unfolding set_places first_in changed_places

    first-set_places_in :
        (n : Node)
        → Option.map (first_in wide) (set_places_in wide f n) ≡ changed_places (first_in wide n)
    first-set_places_in (node e children) = elim (Bool-cases (is_children wide e)) [
      | inl list ↦
          rw list (ap some (first_in_found wide (record e { display = f e.display }) children list))
      | inr other ↦ elim (Bool-cases (is_div wide e)) [
        | inl div ↦
            rw (other, div)
              (first-deeper e (set_places wide f children) other div ∙ first-set_places children)
        | inr leaf ↦ rw (other, leaf) refl
      ]
    ]

    first-set_places :
        (ns : Nodes)
        → Option.map (first_in_all wide) (set_places wide f ns)
          ≡ changed_places (first_in_all wide ns)
    first-set_places nil = refl
    first-set_places (cons n ns) =
        set_places-cons n ns (set_places_in wide f n) (first_in wide n) (set_places wide f ns) refl
          (first-set_places_in n) (first-set_places ns)

  -- The node with the first list of places below it changed.
  pub set_below : Node → Option Node
  set_below (node e children) = Option.map (node e) (set_places wide f children)

  unfoldable pub set_target : Option Node → Option (Option (Option Node))
  set_target t = Option.map (λ (n : Node). Option.map (λ (m : Node). some m) (set_below n)) t

  first-found :
      (rest r : Option Node)
      → Option.map (λ (x : Option Node). first_of x rest) (Option.map (λ (m : Node). some m) r)
        ≡ Option.map (λ (m : Node). some m) r
  first-found rest none = refl
  first-found rest (some m) = refl

  update_nodes-cons :
      (id : Text) (n : Node) (ns : Nodes) (r : Option (Option Node)) (t : Option Node)
      (s : Option (Option Nodes))
      → target id n ≡ t
      → Option.map (Option.map (target id)) r ≡ set_target t
      → Option.map (Option.map (target_all id)) s ≡ set_target (target_all id ns)
      → Option.map (Option.map (target_all id)) (elim r [
        | none ↦ Option.map (Option.map (cons n)) s
        | some changed ↦ some (Option.map (λ (m : Node). cons m ns) changed)
      ])
        ≡ set_target (first_of t (target_all id ns))
  unfolding set_target target
  update_nodes-cons id n ns none none none at h g = g
  update_nodes-cons id n ns none none (some none) at h g = g
  update_nodes-cons id n ns none none (some (some ms)) at h g = rw at g
  update_nodes-cons id n ns none (some k) s at h g = cc
  update_nodes-cons id n ns (some c) none s at h g = cc
  update_nodes-cons id n ns (some none) (some k) s at h g = h
  update_nodes-cons id n ns (some (some m)) (some k) s at h g =
      ap (Option.map (Option.map (λ (x : Option Node). first_of x (target_all id ns)))) h
      ∙ ap some (first-found (target_all id ns) (set_below k))

  target-deeper :
      (id : Text) (e : Element) (r : Option (Option Nodes))
      → text_eq (id_of e) id ≡ false
      → Option.map (Option.map (target id)) (Option.map (Option.map (node e)) r)
        ≡ Option.map (Option.map (target_all id)) r
  unfolding target
  target-deeper id e none h = refl
  target-deeper id e (some none) h = refl
  target-deeper id e (some (some ms)) h = rw h refl

  target-here :
      (id : Text) (e : Element) (r : Option Nodes)
      → text_eq (id_of e) id ≡ true
      → Option.map (target id) (Option.map (node e) r)
        ≡ Option.map (λ (m : Node). some m) (Option.map (node e) r)
  unfolding target
  target-here id e none h = refl
  target-here id e (some ms) h = rw h refl

  mutual
    unfolding update_node set_target set_below target

    target-update_node :
        (id : Text) (n : Node)
        → Option.map (Option.map (target id)) (update_node wide id f n) ≡ set_target (target id n)
    target-update_node id (node e children) = elim (Bool-cases (text_eq (id_of e) id)) [
      | inl here ↦ rw here (ap some (target-here id e (set_places wide f children) here))
      | inr there ↦ rw there (
          target-deeper id e (update_nodes wide id f children) there
          ∙ target-update_nodes id children)
    ]

    pub target-update_nodes :
        (id : Text) (ns : Nodes)
        → Option.map (Option.map (target_all id)) (update_nodes wide id f ns)
          ≡ set_target (target_all id ns)
    target-update_nodes id nil = refl
    target-update_nodes id (cons n ns) =
        update_nodes-cons id n ns (update_node wide id f n) (target id n)
          (update_nodes wide id f ns) refl (target-update_node id n) (target-update_nodes id ns)

  -- What a caller of FindChildElement reads.
  abbrev pub list_in : Node → Option Node
  list_in n = element_found (find_child_element wide n)

  set_below-map :
      (e : Element) (r : Option Nodes)
      → Option.map list_in (Option.map (node e) r) ≡ Option.map (first_in_all wide) r
  set_below-map e none = refl
  set_below-map e (some ms) =
      ap (λ (r : Option (Option Node)). some (element_found r)) (find_child_element_lem wide e ms)

  -- The list of places below the node is changed, if there is one.
  pub set_below-places : (n : Node) → Option.map list_in (set_below n) ≡ changed_places (list_in n)
  unfolding set_below
  set_below-places (node e children) =
      rw (find_child_element_lem wide e children)
        (set_below-map e (set_places wide f children) ∙ first-set_places children)
