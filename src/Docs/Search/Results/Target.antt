-- ===== src/Docs/Search/Results/Target.antt =====
-- docs/html/search/search.js, SearchResults: the element that the page finds for an id.
use riscv_simulator_pipeline.Base.{
  List, ◌∷◌, Option, none, some, ◌≡◌, refl, ◌∙◌, Bool-cases, inl, inr, if◌then◌else◌,
}
use riscv_simulator_pipeline.Docs.Text.{Text, text_eq}
use riscv_simulator_pipeline.Docs.Dom.{Node, node, Nodes, nil, cons, id_of}
use riscv_simulator_pipeline.Docs.Search.Results.FirstPlaces.{first_of}
use riscv_simulator_pipeline.Docs.Search.Results.Nav.{Found, locate, locate_all}

-- The first element with the id, without its ancestors.
unfoldable mutual
  pub target : Text → Node → Option Node
  target id (node e children) =
      let below = target_all id children in
      if text_eq (id_of e) id then some (node e children) else below

  pub target_all : Text → Nodes → Option Node
  target_all id nil = none
  target_all id (cons n ns) = first_of (target id n) (target_all id ns)

abbrev pub element_of : Option Found → Option Node
element_of none = none
element_of (some (n, above)) = some n

element-either :
    (r s : Option Found)
    → element_of (elim r [ none ↦ s | some at ↦ some at ]) ≡ first_of (element_of r) (element_of s)
element-either none s = refl
element-either (some (n, above)) s = refl

mutual
  unfolding target locate

  element-locate :
      (id : Text) (above : List Node) (n : Node) → element_of (locate id above n) ≡ target id n
  element-locate id above (node e children) = elim (Bool-cases (text_eq (id_of e) id)) [
    | inl here ↦ rw here refl
    | inr there ↦ rw there (element-locate_all id (node e children ∷ above) children)
  ]

  pub element-locate_all :
      (id : Text) (above : List Node) (ns : Nodes)
      → element_of (locate_all id above ns) ≡ target_all id ns
  element-locate_all id above nil = refl
  element-locate_all id above (cons n ns) =
      element-either (locate id above n) (locate_all id above ns)
      ∙ rw (element-locate id above n, element-locate_all id above ns) refl
