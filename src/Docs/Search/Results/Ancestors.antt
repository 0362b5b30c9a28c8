-- ===== src/Docs/Search/Results/Ancestors.antt =====
-- docs/html/search/search.js, SearchResults: the ancestors of the element that the page finds for an
-- id, each the parent of the one before.
use mathlib.Core.Path.{subst}
use riscv_simulator_pipeline.Base.{
  List, [], ◌∷◌, Option, none, some, ◌≡◌, refl, Bool-cases, inl, inr, ◌⊎◌,
}
use riscv_simulator_pipeline.Docs.Text.{Text, text_eq}
use riscv_simulator_pipeline.Docs.Dom.{Node, node, Nodes, nil, cons, id_of}
use riscv_simulator_pipeline.Docs.Search.Results.{ResultsPage}
use riscv_simulator_pipeline.Docs.Search.Results.Nav.{Found, locate, locate_all, get_element}

Occurs : Node → Nodes → Type 0
Occurs n nil = ⊥
Occurs n (cons m ms) = (n ≡ m) ⊎ Occurs n ms

IsChildOf : Node → Node → Type 0
IsChildOf n (node e children) = Occurs n children

-- Each node is a child of the next one.
pub IsChain : Node → List Node → Type 0
IsChain n [] = Unit
IsChain n (parent ∷ above) = IsChildOf n parent × IsChain parent above

AllChains : List Node → Nodes → Type 0
AllChains above nil = Unit
AllChains above (cons n ns) = IsChain n above × AllChains above ns

ChainFound : Option Found → Type 0
ChainFound none = Unit
ChainFound (some (n, above)) = IsChain n above

AllChains-children :
    (p : Node) (above : List Node) (ns : Nodes)
    → IsChain p above
    → ((m : Node) → Occurs m ns → IsChildOf m p)
    → AllChains (p ∷ above) ns
unfolding AllChains IsChain Occurs
AllChains-children p above nil h sub = tt
AllChains-children p above (cons n ns) h sub =
    ((sub n (inl refl), h), AllChains-children p above ns h (λ m o. sub m (inr o)))

ChainFound-either :
    (r s : Option Found)
    → ChainFound r
    → ChainFound s
    → ChainFound (elim r [ none ↦ s | some at ↦ some at ])
unfolding ChainFound
ChainFound-either none s h k = k
ChainFound-either (some (n, above)) s h k = h

mutual
  unfolding locate AllChains ChainFound IsChildOf

  locate-ChainFound :
      (id : Text) (above : List Node) (n : Node) → IsChain n above → ChainFound (locate id above n)
  locate-ChainFound id above (node e children) h = elim (Bool-cases (text_eq (id_of e) id)) [
    | inl here ↦ rw here h
    | inr there ↦ rw there (
        locate_all-ChainFound id (node e children ∷ above) children
          (AllChains-children (node e children) above children h (λ m o. o)))
  ]

  locate_all-ChainFound :
      (id : Text) (above : List Node) (ns : Nodes)
      → AllChains above ns
      → ChainFound (locate_all id above ns)
  locate_all-ChainFound id above nil h = tt
  locate_all-ChainFound id above (cons n ns) h =
      ChainFound-either (locate id above n) (locate_all id above ns)
        (locate-ChainFound id above n h.0) (locate_all-ChainFound id above ns h.1)

AllChains-top : (ns : Nodes) → AllChains [] ns
unfolding AllChains IsChain
AllChains-top nil = tt
AllChains-top (cons n ns) = (tt, AllChains-top ns)

pub get_element-IsChain :
    (id : Text) (page : ResultsPage) (n : Node) (above : List Node)
    → get_element id page ≡ some (n, above)
    → IsChain n above
unfolding ChainFound
get_element-IsChain id page n above e =
    subst ChainFound e (locate_all-ChainFound id [] page.rows (AllChains-top page.rows))
