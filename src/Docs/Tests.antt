-- ===== src/Docs/Tests.antt =====
-- The scripts of docs/html at concrete pages.
use Prim.Native.String.{String}
use mathlib.Core.List.{map, ◌++◌}
use riscv_simulator_pipeline.Base.{
  ℕ, zero, suc, Bool, true, false, not, List, [], ◌∷◌, Option, none, some, ◌==◌, ◌≡◌, refl, ◌<◌,
  get_elem?, arith, if◌then◌else◌,
}
use riscv_simulator_pipeline.Docs.Text.{
  Text, codes, text_eq, begins, to_lower_case, trim_start, trim_end, remove_spaces, radix_digits,
  to_hex, drop,
}
use riscv_simulator_pipeline.Docs.Escape.{escape, unescape}
use riscv_simulator_pipeline.Docs.Dom.{
  Element, node, Nodes, nil, cons, put_attribute, get_attribute,
}
use riscv_simulator_pipeline.Docs.Search.Entry.{SearchEntry, symbol, hit}
use riscv_simulator_pipeline.Docs.Search.Ids.{id_unit, convert_to_id}
use riscv_simulator_pipeline.Docs.Search.Ids.Laws.{decode_id, decode_id-convert_to_id}
use riscv_simulator_pipeline.Docs.Search.Create.{
  create_results, result_row, item_id, row_id, add_children,
}
use riscv_simulator_pipeline.Docs.Search.Index.AllB.{all_b}
use riscv_simulator_pipeline.Docs.Search.Index.Found.{IndexPage, found_from_panel}
use riscv_simulator_pipeline.Docs.Search.Sections.{index_section_labels}
use riscv_simulator_pipeline.Docs.Search.Box.{
  Options, make_options, Layout, SearchBox, make_search_box,
}
use riscv_simulator_pipeline.Docs.Search.Box.Search.{
  ◌>>=◌, label_items, perform_search, select_item_count, select_item_set, init_search,
  on_search_select_key,
}
use mathlib.Core.Option
use riscv_simulator_pipeline.Docs.Search.Box.{SelectChild}
use riscv_simulator_pipeline.Docs.Search.Box.Select.{
  marked, items_before, get_elem?-select_item_set, InRange, on_search_select_key-InRange,
  down_past_last,
}
use riscv_simulator_pipeline.Docs.Search.Box.Events.{
  Event, type_text, field_focus, field_change, run_search, close_results, select_key, handle_all,
  AllConsistent, handle_all-IsConsistent,
}
use riscv_simulator_pipeline.Docs.Search.Results.{ResultsPage, search_results, search_word}
use riscv_simulator_pipeline.Docs.Search.Results.Rows.{shown_display, count_shown}
use riscv_simulator_pipeline.Docs.Search.Results.Finds.{
  loaded_page, row_displays, search_results-loaded,
}
use riscv_simulator_pipeline.Docs.Search.Results.Walk.{find_child_element}
use riscv_simulator_pipeline.Docs.Search.Results.FirstPlaces.{first_in_all, find_child_element_lem}
use riscv_simulator_pipeline.Docs.Search.Results.Nav.{
  Found, nav_next, get_element, locate_all, toggle, set_places, update_nodes,
}
use riscv_simulator_pipeline.Docs.Search.Results.Toggled.{IsToggled, list_of, toggle-IsToggled}
use riscv_simulator_pipeline.Docs.Search.Results.Neighbours.{HasItems, IsNext, nav_next_lem}
use riscv_simulator_pipeline.Docs.Search.HandOver.{location_search}
use riscv_simulator_pipeline.Docs.Menu.{make_tree}
use riscv_simulator_pipeline.Docs.Menu.Data.{menudata}
use riscv_simulator_pipeline.Docs.Menu.Laws.{values_outside, links, values_outside-menudata}
use riscv_simulator_pipeline.Docs.DynSections.{
  DirectoryRow, toggle_folder, update_stripes, first_child_visible, is_child_row,
}
use riscv_simulator_pipeline.Docs.DynSections.Laws.{
  rows_after, toggle_folder_lem, visible_stripes, hidden_stripes, alternating, count_visible,
  update_stripes_lem,
}

-- An engine whose case mapping leaves what is past ASCII, and for which no text exceeds 1.
abbrev same_case : ℕ → ℕ
same_case c = c

abbrev no_number : Text → Bool
no_number s = false

abbrev panel_options : Options
panel_options = make_options (codes "searchBox") (codes "search") false (codes "Search") []

abbrev no_layout : Layout
no_layout = record {
  select_chain = [];
  select_width = 20;
  select_height = 19;
  select_window_width = 100;
  box_chain = [];
  results_offset_width = 300;
  client_width = 800;
}

abbrev k_page : IndexPage
k_page = record {
  section = 0;
  section_name = "all";
  content = "_abcdefghijklmnoprstuvwz~";
  number = 0xb;
  entries = all_b;
}

-- `kA` typed into the panel.
abbrev typed_panel : SearchBox
typed_panel = make_search_box [] (codes "kA")

abbrev kadd : SearchEntry
kadd = symbol "kadd_556" "kAdd" (
    hit "../namespacealu.html#a168383e119a615fcfa97506988a23985aa9130c0c8cfb5cbb3b70c98f89d3d96c" 1
      "alu"
    ∷ [])

decode_id-convert_to_id_example : decode_id (convert_to_id (codes "op_a~")) ≡ codes "op_a~"
decode_id-convert_to_id_example = decode_id-convert_to_id (codes "op_a~")

convert_test : convert_to_id (codes "rv5s_vm.cpp") ≡ codes "rv5s_5fvm_2ecpp"
unfolding convert_to_id id_unit radix_digits
convert_test = refl

escape_test : unescape (escape (codes "a b?")) ≡ codes "a b?"
unfolding escape unescape
escape_test = refl

found_from_panel_example :
    (c : SearchBox) × (perform_search same_case no_number panel_options no_layout typed_panel
      ≡ some c)
    × (c.last_results_page
        ≡ codes "search"
          ++ (codes "/" ++ (codes "all" ++ (codes "_" ++ (to_hex 0xb ++ codes ".html")))))
    × (c.results_window.display ≡ codes "block")
    × (get_elem?
          (row_displays
            (search_results same_case [] (location_search c.results_location) (loaded_page all_b)))
          0
        ≡ some (codes "block"))
unfolding make_search_box trim_start trim_end to_lower_case text_eq
found_from_panel_example =
    found_from_panel same_case no_number panel_options no_layout typed_panel 0 k_page 0 kadd
      (codes "dd") (search tt) (search tt) (omega arith) refl refl refl refl refl

search_results-loaded_example :
    let page = search_results same_case (codes "kadd") [] (loaded_page all_b) in
    let word =
      convert_to_id
        (to_lower_case same_case (trim_end (trim_start (search_word (codes "kadd") [])))) in
    (row_displays page ≡ map (shown_display same_case word) all_b)
    × (page.last_match_count ≡ count_shown same_case word all_b)
    × (page.searching ≡ codes "none")
    × (page.no_matches
        ≡ (if count_shown same_case word all_b == 0 then codes "block" else codes "none"))
search_results-loaded_example = search_results-loaded same_case all_b (codes "kadd") []

abbrev list_element : Element
list_element = record {
  node_name = "DIV";
  attributes = put_attribute "class" (codes "SRChildren") [];
  inner_html = [];
  display = [];
}

abbrev plain_div : Element
plain_div = record { node_name = "DIV"; attributes = []; inner_html = []; display = [] }

-- A row whose list of places stands in the entry's div.
abbrev nested_row : Nodes
nested_row =
    cons (node plain_div (cons (node plain_div nil) (cons (node list_element nil) nil))) nil

find_child_element_lem_example :
    find_child_element same_case (node plain_div nested_row)
    ≡ some (first_in_all same_case nested_row)
find_child_element_lem_example = find_child_element_lem same_case plain_div nested_row

nested_row_found :
    find_child_element same_case (node plain_div nested_row) ≡ some (some (node list_element nil))
unfolding find_child_element to_lower_case text_eq get_attribute put_attribute
nested_row_found = refl

-- The page of a search without matches among two rows.
abbrev two_rows : ResultsPage
two_rows = loaded_page (kadd ∷ kadd ∷ [])

two_rows-items : (k : ℕ) → k < 2 → (at : Found) × (get_element (item_id k) two_rows ≡ some at)
unfolding locate_all create_results result_row add_children get_attribute put_attribute text_eq
    radix_digits
two_rows-items zero h = (_, refl)
two_rows-items (suc zero) h = (_, refl)
two_rows-items (suc (suc k)) h = absurd (omega arith)

two_rows-last : get_element (item_id 2) two_rows ≡ none
unfolding locate_all create_results result_row add_children get_attribute put_attribute text_eq
    radix_digits
two_rows-last = refl

abbrev two_rows-HasItems : HasItems two_rows 2
two_rows-HasItems = record { items = two_rows-items; last = two_rows-last }

nav_next_lem_example : (r : Option Found) × (nav_next 3 two_rows 0 ≡ some r) × IsNext two_rows 2 0 r
nav_next_lem_example = nav_next_lem 3 two_rows 2 0 two_rows-HasItems (omega arith) (omega arith)

abbrev arith_types : SearchEntry
arith_types = symbol "i_5ftype_5farith_454" "I_TYPE_ARITH" (
    hit
      "../namespacegenerate__single__tests__without__hazards.html#aaf91274f56e9adea597dcf479862de01"
      1 "generate_single_tests_without_hazards.I_TYPE_ARITH()"
    ∷ hit "../namespacegenerate__single__tests__hazards.html#a956ab545d1a9b79214302bc936537796" 1
        "generate_single_tests_hazards.I_TYPE_ARITH()"
    ∷ [])

-- The page with a row that has two places, and what the link of that row does.
abbrev foldable_page : ResultsPage
foldable_page = loaded_page (kadd ∷ arith_types ∷ [])

toggle-IsToggled_example :
    IsToggled same_case
      (row_id "i_5ftype_5farith_454")
      foldable_page
      (toggle same_case (row_id "i_5ftype_5farith_454") foldable_page)
toggle-IsToggled_example = toggle-IsToggled same_case (row_id "i_5ftype_5farith_454") foldable_page

-- The list of places is open after the first click, and closed after the second.
abbrev click : Option ResultsPage → Option ResultsPage
click page = elim page [ none ↦ none | some p ↦ toggle same_case (row_id "i_5ftype_5farith_454") p ]

abbrev list_display : Option ResultsPage → Option Text
list_display page = elim page [
  | none ↦ none
  | some p ↦ elim (list_of same_case (row_id "i_5ftype_5farith_454") p) [
    | none ↦ none
    | some (node e children) ↦ some e.display
  ]
]

clicks_open_and_close :
    (list_display (click (some foldable_page)) ≡ some (codes "block"))
    × (list_display (click (click (some foldable_page))) ≡ some (codes "none"))
unfolding toggle locate_all set_places update_nodes create_results result_row add_children
    find_child_element get_attribute put_attribute text_eq to_lower_case
clicks_open_and_close = (refl, refl)

abbrev labelled_panel : ℕ → SearchBox
labelled_panel index = record (make_search_box (label_items 0 index_section_labels) (codes "kA")) {
  search_index = index;
  search_active = true;
}

-- A child that is no item between two items.
abbrev child_of_class : String → SelectChild
child_of_class name = record { class_name = codes name; on_click = []; mark = []; label = [] }

abbrev mixed_panel : SearchBox
mixed_panel = record (labelled_panel 0) {
  select_children =
      child_of_class "SelectItem" ∷ child_of_class "" ∷ child_of_class "SelectItem" ∷ [];
}

get_elem?-select_item_set_example :
    get_elem? (select_item_set 1 mixed_panel).select_children 2
    ≡ Option.map
        (marked 1 (items_before 2 mixed_panel.select_children))
        (get_elem? mixed_panel.select_children 2)
get_elem?-select_item_set_example = get_elem?-select_item_set 1 mixed_panel 2

on_search_select_key-InRange_example :
    InRange (on_search_select_key same_case no_number panel_options no_layout 40 (labelled_panel 3))
unfolding make_search_box label_items select_item_count text_eq
on_search_select_key-InRange_example =
    on_search_select_key-InRange same_case no_number panel_options no_layout (labelled_panel 3) 40
      (omega arith)

down_past_last_example :
    on_search_select_key same_case no_number panel_options no_layout 40 (labelled_panel 10) ≡ none
unfolding make_search_box label_items select_item_count text_eq remove_spaces
down_past_last_example =
    down_past_last same_case no_number panel_options no_layout (labelled_panel 10) refl refl refl
      refl

abbrev session : List Event
session =
    field_focus true
    ∷ type_text (codes "kAd")
    ∷ field_change 65 false 7
    ∷ run_search
    ∷ select_key 40
    ∷ close_results
    ∷ []

handle_all-IsConsistent_example : AllConsistent (
    init_search same_case no_number panel_options no_layout (make_search_box [] (codes "kA"))
    >>= λ b. handle_all same_case no_number panel_options no_layout session b)
handle_all-IsConsistent_example =
    handle_all-IsConsistent same_case no_number panel_options no_layout session [] (codes "kA")

values_outside-menudata_example :
    values_outside (make_tree (codes "../") menudata) ≡ links (codes "../") menudata
values_outside-menudata_example = values_outside-menudata (codes "../") refl

abbrev directory_row : String → Bool → DirectoryRow
directory_row id visible = record {
  id = codes id;
  visible = visible;
  even = false;
  icon_open = true;
  icon_closed = false;
  arrow = [];
}

abbrev directory : List DirectoryRow
directory =
    directory_row "row_0_" true
    ∷ directory_row "row_0_0_" true
    ∷ directory_row "row_0_0_0_" true
    ∷ directory_row "row_1_" true
    ∷ []

toggle_folder_lem_example :
    first_child_visible
      (codes "0_")
      (rows_after (codes "0_") (toggle_folder (codes "0_") directory))
    ≡ not (first_child_visible (codes "0_") (rows_after (codes "0_") directory))
unfolding to_lower_case rows_after is_child_row text_eq begins drop
toggle_folder_lem_example = toggle_folder_lem (codes "0_") directory refl (search tt) refl

update_stripes_lem_example :
    (visible_stripes (update_stripes directory) ≡ alternating true (count_visible directory))
    × (hidden_stripes (update_stripes directory) ≡ false)
update_stripes_lem_example = update_stripes_lem directory
