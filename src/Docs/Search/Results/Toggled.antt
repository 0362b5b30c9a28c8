-- ===== src/Docs/Search/Results/Toggled.antt =====
-- docs/html/search/search.js, Toggle of SearchResults, and the list that FindChildElement finds
-- before and after it.
use mathlib.Core.Option
use mathlib.Core.Option.{some-injective}
use riscv_simulator_pipeline.Base.{
  ℕ, [], Option, none, some, ◌≡◌, refl, ap, ◌∙◌, sym, if◌then◌else◌,
}
use riscv_simulator_pipeline.Docs.Text.{Text, codes, text_eq}
use riscv_simulator_pipeline.Docs.Dom.{Node, Nodes}
use riscv_simulator_pipeline.Docs.Search.Results.{ResultsPage}
use riscv_simulator_pipeline.Docs.Search.Results.Walk.{find_child_element, element_found}
use riscv_simulator_pipeline.Docs.Search.Results.Nav.{
  Found, get_element, update_nodes, toggle, flip_display, page_with,
}
use riscv_simulator_pipeline.Docs.Search.Results.Target.{target_all, element_of, element-locate_all}
use riscv_simulator_pipeline.Docs.Search.Results.Changed.{
  with_display, list_in, changed_places, set_below, set_target, set_below-places,
  target-update_nodes,
}

-- An open list is closed, and any other opened.
abbrev pub toggled_display : Text → Text
toggled_display d = if text_eq d (codes "block") then codes "none" else codes "block"

module _ (wide : ℕ → ℕ) where
  -- FindChildElement on an element that the page may lack.
  abbrev list_below : Option Node → Option Node
  list_below none = none
  list_below (some n) = element_found (find_child_element wide n)

  -- FindChildElement on an id.
  abbrev pub list_of : Text → ResultsPage → Option Node
  list_of id page = list_below (element_of (get_element id page))

  module _ (f : Text → Text) where
    list_kept :
        (q list : Option Node)
        → some none ≡ some (Option.map (λ (m : Node). some m) q)
        → Option.map (list_in wide f) q ≡ changed_places wide f list
        → list ≡ Option.map (with_display f) list
    unfolding changed_places
    list_kept none none h g = refl
    list_kept none (some n) h g = cc
    list_kept (some m) list h g = cc

    list_moved :
        (x q list : Option Node)
        → some (some x) ≡ some (Option.map (λ (m : Node). some m) q)
        → Option.map (list_in wide f) q ≡ changed_places wide f list
        → list_below x ≡ Option.map (with_display f) list
    unfolding changed_places
    list_moved x none list h g = cc
    list_moved x (some m) none h g = cc
    list_moved none (some m) (some n) h g = cc
    list_moved (some k) (some m) (some n) h g = cc

    IsChanged : Text → Option Node → Option ResultsPage → Type 0
    IsChanged id t none = t ≡ none
    IsChanged id t (some page') =
        (n : Node) × (t ≡ some n)
        × (list_below (target_all id page'.rows) ≡ Option.map (with_display f) (list_below t))

    page_with-IsChanged :
        (id : Text) (page : ResultsPage) (r : Option (Option Nodes)) (t : Option Node)
        → target_all id page.rows ≡ t
        → Option.map (Option.map (target_all id)) r ≡ set_target wide f t
        → IsChanged id t (page_with r page)
    unfolding set_target IsChanged
    page_with-IsChanged id page none none at h = refl
    page_with-IsChanged id page none (some k) at h = cc
    page_with-IsChanged id page (some r) none at h = cc
    page_with-IsChanged id page (some none) (some k) at h = (
      k,
      refl,
      rw at (list_kept (set_below wide f k) (list_in wide f k) h (set_below-places wide f k)),
    )
    page_with-IsChanged id page (some (some ms)) (some k) at h = (
      k,
      refl,
      list_moved (target_all id ms) (set_below wide f k) (list_in wide f k) h
          (set_below-places wide f k),
    )

  -- What Toggle does to the list that FindChildElement finds.
  abbrev pub IsToggled : Text → ResultsPage → Option ResultsPage → Type 0
  IsToggled id page none = get_element id page ≡ none
  IsToggled id page (some page') =
      (at : Found) × (get_element id page ≡ some at)
      × (list_of id page' ≡ Option.map (with_display toggled_display) (list_of id page))

  IsToggled-from :
      (id : Text) (page : ResultsPage) (found : Option Found) (r : Option ResultsPage)
      → get_element id page ≡ found
      → IsChanged flip_display id (element_of found) r
      → IsToggled id page r
  unfolding IsChanged
  IsToggled-from id page none none h c = h
  IsToggled-from id page (some at) none h c = cc
  IsToggled-from id page none (some page') h (n, e, places) = cc
  IsToggled-from id page (some (n, above)) (some page') h (m, e, places) =
      ((n, above), h, ap list_below (element-locate_all id [] page'.rows) ∙ places ∙ rw h refl)

  -- Toggle raises an exception only if the page has no element with the id, and only then; on an
  -- id that it has, the list of places that FindChildElement finds below it is afterwards the
  -- same list with its display changed to none if it was block, and to block if it was anything
  -- else, and there is none if there was none.
  pub toggle-IsToggled : (id : Text) (page : ResultsPage) → IsToggled id page (toggle wide id page)
  unfolding toggle
  toggle-IsToggled id page =
      IsToggled-from id page (get_element id page)
        (page_with (update_nodes wide id flip_display page.rows) page) refl
        (page_with-IsChanged flip_display id page (update_nodes wide id flip_display page.rows)
          (element_of (get_element id page)) (sym (element-locate_all id [] page.rows))
          (rw (element-locate_all id [] page.rows)
            (target-update_nodes wide flip_display id page.rows)))
