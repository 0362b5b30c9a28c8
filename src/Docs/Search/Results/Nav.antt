-- ===== src/Docs/Search/Results/Nav.antt =====
-- docs/html/search/search.js, SearchResults: the keys on a results page.
use mathlib.Core.Option
use riscv_simulator_pipeline.Base.{
  ℕ, zero, suc, ◌+◌, ◌-◌, Bool, true, false, not, List, [], ◌∷◌, Option, none, some, ◌==◌,
  if◌then◌else◌,
}
use riscv_simulator_pipeline.Docs.Text.{Text, codes, text_eq}
use riscv_simulator_pipeline.Docs.Dom.{Node, node, Nodes, nil, cons, id_of}
use riscv_simulator_pipeline.Docs.Search.Create.{item_id, child_item_id}
use riscv_simulator_pipeline.Docs.Search.Results.{ResultsPage}
use riscv_simulator_pipeline.Docs.Search.Results.Walk.{
  size_all, is_children, is_div, find_child_element, element_found,
}

-- An element with its ancestors, the nearest first.
abbrev pub Found : Type 0
Found = Node × List Node

-- `document.getElementById(id)`: the first in the order of the document.
unfoldable mutual
  pub locate : Text → List Node → Node → Option Found
  locate id above (node e children) =
      let below = locate_all id (node e children ∷ above) children in
      if text_eq (id_of e) id then some (node e children, above) else below

  pub locate_all : Text → List Node → Nodes → Option Found
  locate_all id above nil = none
  locate_all id above (cons n ns) = elim (locate id above n) [
    | none ↦ locate_all id above ns
    | some at ↦ some at
  ]

abbrev pub get_element : Text → ResultsPage → Option Found
get_element id page = locate_all id [] page.rows

-- `item.parentNode.parentNode`, which every link of a row has.
abbrev pub row_of : Found → Option Node
row_of (n, []) = none
row_of (n, parent ∷ []) = none
row_of (n, parent ∷ row ∷ above) = some row

abbrev is_block : Option Node → Bool
is_block none = false
is_block (some (node e children)) = text_eq e.display (codes "block")

-- `focusItem.parentNode.parentNode.style.display=='block'`
abbrev pub is_visible : Found → Bool
is_visible at = is_block (row_of at)

-- NavNext; the outer `none` is fuel that ran out.
unfoldable pub nav_next : ℕ → ResultsPage → ℕ → Option (Option Found)
nav_next zero page index = none
nav_next (suc fuel) page index = elim (get_element (item_id index) page) [
  | none ↦ some none
  | some at ↦
      let rest = nav_next fuel page (index + 1) in if is_visible at then some (some at) else rest
]

-- NavPrev from `n - 1` on down. There is no item number -1.
unfoldable pub nav_prev : ResultsPage → ℕ → Option Found
nav_prev page zero = none
nav_prev page (suc n) = elim (get_element (item_id n) page) [
  | none ↦ none
  | some at ↦ let rest = nav_prev page n in if is_visible at then some at else rest
]

-- ProcessKeys
pub data KeyEvent : Type 0 where
  key_down key_press key_up : KeyEvent

abbrev pub is_pressed : ResultsPage → ResultsPage × Bool
is_pressed page = (page, not (page.last_key == 0))

unfoldable pub process_keys : KeyEvent → ℕ → ResultsPage → ResultsPage × Bool
process_keys key_down key_code page =
    is_pressed (record page { repeat_on = false; last_key = key_code })
process_keys key_press key_code page =
    if page.repeat_on
    then is_pressed page
    else (if page.last_key == 0 then (page, false) else (record page { repeat_on = true }, false))
process_keys key_up key_code page = is_pressed (record page { last_key = 0; repeat_on = false })

-- Where the focus goes, and whether the panel closes the results.
pub data Focus : Type 0 where
  stay : Focus
  on_element : Found → Focus
  on_search_field : Focus
  close_and_search_field : Focus

-- The loop for the last place of the entry number `index`, from place `n` on.
unfoldable pub last_place : ℕ → ResultsPage → ℕ → ℕ → Found → Found
last_place zero page index n at = at
last_place (suc fuel) page index n at = elim (get_element (child_item_id index n) page) [
  | none ↦ at
  | some child ↦ last_place fuel page index (n + 1) child
]

abbrev focus_found : Option Found → Focus → Focus
focus_found none otherwise = otherwise
focus_found (some at) otherwise = on_element at

-- More turns than a loop over the elements of the page can take.
abbrev pub enough : ResultsPage → ℕ
enough page = suc (size_all page.rows)

abbrev pub flip_display : Text → Text
flip_display d = if text_eq d (codes "block") then codes "none" else codes "block"

-- The page after a write to its rows: `none` is the exception for an id that the page does not
-- have, and nothing is written if there is no list of places.
abbrev pub page_with : Option (Option Nodes) → ResultsPage → Option ResultsPage
page_with none page = none
page_with (some none) page = some page
page_with (some (some rows)) page = some (record page { rows = rows })

module _ (wide : ℕ → ℕ) where
  -- FindChildElement on the row of an item.
  abbrev places_of : Found → Option Node
  places_of at = elim (row_of at) [
    | none ↦ none
    | some row ↦ element_found (find_child_element wide row)
  ]

  -- `child && child.style.display == 'block'`
  abbrev are_places_shown : Found → Bool
  are_places_shown at = is_block (places_of at)

  nav_up : ResultsPage → ℕ → Focus
  nav_up page item_index = elim (nav_prev page item_index) [
    | none ↦ on_search_field
    | some at ↦
        on_element
          (if are_places_shown at then last_place (enough page) page (item_index - 1) 0 at else at)
  ]

  abbrev next_item : ResultsPage → ℕ → Option Found
  next_item page index = elim (nav_next (enough page) page index) [
    | none ↦ none
    | some found ↦ found
  ]

  nav_down : ResultsPage → ℕ → Found → Focus
  nav_down page item_index item =
      let first =
        if are_places_shown item then get_element (child_item_id item_index 0) page else none in
      focus_found first (focus_found (next_item page (item_index + 1)) stay)

  -- Writes to `style.display` of the list of places that FindChildElement finds below a node.
  unfoldable mutual
    pub set_places_in : (Text → Text) → Node → Option Node
    set_places_in f (node e children) =
        let here : Option Node = some (node (record e { display = f e.display }) children) in
        let below = Option.map (node e) (set_places f children) in
        if is_children wide e then here else if is_div wide e then below else none

    pub set_places : (Text → Text) → Nodes → Option Nodes
    set_places f nil = none
    set_places f (cons n ns) = elim (set_places_in f n) [
      | none ↦ Option.map (cons n) (set_places f ns)
      | some m ↦ some (cons m ns)
    ]

  -- The same below the first element with the id. The outer `none` is that there is none with the
  -- id, the inner one that there is no list below it.
  unfoldable mutual
    pub update_node : Text → (Text → Text) → Node → Option (Option Node)
    update_node id f (node e children) =
        let here : Option (Option Node) = some (Option.map (node e) (set_places f children)) in
        let below = Option.map (Option.map (node e)) (update_nodes id f children) in
        if text_eq (id_of e) id then here else below

    pub update_nodes : Text → (Text → Text) → Nodes → Option (Option Nodes)
    update_nodes id f nil = none
    update_nodes id f (cons n ns) = elim (update_node id f n) [
      | none ↦ Option.map (Option.map (cons n)) (update_nodes id f ns)
      | some changed ↦ some (Option.map (λ (m : Node). cons m ns) changed)
    ]

  abbrev pub change_display : (Text → Text) → Text → ResultsPage → Option ResultsPage
  change_display f id page = page_with (update_nodes id f page.rows) page

  -- Toggle
  unfoldable pub toggle : Text → ResultsPage → Option ResultsPage
  unfolding update_node set_places
  toggle id page = change_display flip_display id page

  -- What a handler leaves: the page, where the focus goes, and its result. `none` is an exception.
  abbrev pub Handled : Type 0
  Handled = Option (ResultsPage × Focus × Bool)

  abbrev set_row_places : Text → Option Node → ResultsPage → Handled
  set_row_places d none page = none
  set_row_places d (some (node e children)) page =
      Option.map (λ (p : ResultsPage). let f : Focus = stay in (p, f, false))
        (change_display (λ _. d) (id_of e) page)

  -- The switch of Nav over `lastKey`, with the item itself for the keys that look it up.
  nav_key : ℕ → ℕ → ResultsPage → Handled
  nav_key key item_index page =
      let item = get_element (item_id item_index) page in
      if key == 38
      then some (page, nav_up page item_index, false)
      else if key == 40
      then Option.map (λ (at : Found). let f = nav_down page item_index at in (page, f, false)) item
      else if key == 39
      then elim item [ none ↦ none | some at ↦ set_row_places (codes "block") (row_of at) page ]
      else if key == 37
      then elim item [ none ↦ none | some at ↦ set_row_places (codes "none") (row_of at) page ]
      else if key == 27
      then some (page, close_and_search_field, false)
      else some (page, stay, key == 13)

  -- Nav
  unfoldable pub nav : KeyEvent → ℕ → ℕ → ResultsPage → Handled
  unfolding process_keys nav_key nav_up nav_down nav_next nav_prev last_place locate set_places
  nav event key_code item_index page =
      let (page', goes_on) = process_keys event key_code page in
      if key_code == 13
      then some (page, stay, true)
      else if goes_on
      then nav_key page'.last_key item_index page'
      else some (page', stay, false)

  abbrev focus_on : ResultsPage → Option Found → Handled
  focus_on page at = Option.map (λ (f : Found). (page, on_element f, false)) at

  nav_child_key : ℕ → ℕ → ℕ → ResultsPage → Handled
  nav_child_key key item_index child_index page =
      let next = get_element (child_item_id item_index (child_index + 1)) page in
      if key == 38
      then (if child_index == 0
          then focus_on page (get_element (item_id item_index) page)
          else focus_on page (get_element (child_item_id item_index (child_index - 1)) page))
      else if key == 40
      then some (page, focus_found next (focus_found (next_item page (item_index + 1)) stay), false)
      else if key == 27
      then some (page, close_and_search_field, false)
      else some (page, stay, key == 13)

  -- NavChild
  unfoldable pub nav_child : KeyEvent → ℕ → ℕ → ℕ → ResultsPage → Handled
  unfolding process_keys nav_child_key nav_next locate
  nav_child event key_code item_index child_index page =
      let (page', goes_on) = process_keys event key_code page in
      if key_code == 13
      then some (page, stay, true)
      else if goes_on
      then nav_child_key page'.last_key item_index child_index page'
      else some (page', stay, false)
