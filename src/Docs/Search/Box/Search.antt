-- ===== src/Docs/Search/Box/Search.antt =====
-- docs/html/search/search.js, SearchBox: the search, the selection of a section, and the keys.
use Prim.Native.String.{String}
use mathlib.Core.Option
use mathlib.Core.List.{◌++◌}
use riscv_simulator_pipeline.Base.{
  ℕ, suc, ◌+◌, ◌-◌, Bool, false, not, ◌&&◌, ◌||◌, List, [], ◌∷◌, Option, none, some, ltb, leb, ◌==◌,
  if◌then◌else◌, get_elem?,
}
use riscv_simulator_pipeline.Base.Int.{pos, ◌+ℤ◌, ◌-ℤ◌}
use riscv_simulator_pipeline.Docs.Text.{
  Text, codes, text_eq, take, to_lower_case, trim_start, remove_spaces, index_of, to_hex,
  to_decimal,
}
use riscv_simulator_pipeline.Docs.Escape.{escape}
use riscv_simulator_pipeline.Docs.Search.Sections.{
  index_sections_with_content, index_section_names, index_section_labels,
}
use riscv_simulator_pipeline.Docs.Search.Box.{
  Options, Layout, SearchBox, SelectChild, set_timeout, clear_timeout, focus_child, focus_field,
  blur_field, take_focus, request, hide_results, key_timeout_length, activate,
  on_search_select_show, close_selection_window, get_x_pos, get_y_pos,
}

infixl 5 ◌>>=◌
abbrev pub ◌>>=◌ : {A B : Type 0} → Option A → (A → Option B) → Option B
none >>= f = none
some a >>= f = f a

abbrev pub is_select_item : SelectChild → Bool
is_select_item child = text_eq child.class_name (codes "SelectItem")

-- SelectItemCount
unfoldable pub select_item_count : List SelectChild → ℕ
select_item_count [] = 0
select_item_count (child ∷ children) =
    (if is_select_item child then 1 else 0) + select_item_count children

-- The loop of SelectItemSet, with `j` items seen: `&#8226;` for the item number `id`.
unfoldable pub mark_items : ℕ → ℕ → List SelectChild → List SelectChild
mark_items id j [] = []
mark_items id j (child ∷ children) =
    let rest = mark_items id (if is_select_item child then j + 1 else j) children in
    if is_select_item child
    then record child { mark = if j == id then codes "&#8226;" else codes "&#160;" } ∷ rest
    else child ∷ rest

unfoldable pub select_item_set : ℕ → SearchBox → SearchBox
unfolding mark_items
select_item_set id b = record b { select_children = mark_items id 0 b.select_children }

-- The number of the first child that is an item.
unfoldable pub first_item : ℕ → List SelectChild → Option ℕ
first_item i [] = none
first_item i (child ∷ children) =
    let rest = first_item (i + 1) children in if is_select_item child then some i else rest

-- The loop of init_search: an item for each label, numbered from `key` on.
unfoldable pub label_items : ℕ → List String → List SelectChild
label_items key [] = []
label_items key (label ∷ labels) =
    (record {
      class_name = codes "SelectItem";
      on_click = codes "searchBox.OnSelectItem(" ++ (to_decimal key ++ codes ")");
      mark = codes "&#160;";
      label = codes label;
    })
    ∷ label_items (suc key) labels

abbrev pub add_labels : SearchBox → SearchBox
add_labels b = record b {
  select_children = b.select_children ++ label_items 0 index_section_labels;
}

-- `wide` is the case mapping past ASCII, `above_one` how a text compares with the number 1.
module _ (wide : ℕ → ℕ) (above_one : Text → Bool) where
  abbrev pub is_surrogate : Text → Bool
  is_surrogate [] = false
  is_surrogate (code ∷ s) = leb 0xD800 code && leb code 0xDBFF

  -- The character that chooses the page.
  unfoldable pub index_char : Text → Text
  index_char value =
      if is_surrogate (to_lower_case wide value) && above_one value
      then take 2 value
      else to_lower_case wide (take 1 value)

  -- The page for a place in the section's characters, and the URL with the search.
  abbrev pub results_page : Options → String → Option ℕ → Text
  results_page o section none = o.results_path ++ (codes "/nomatches" ++ o.extension)
  results_page o section (some i) =
      o.results_path ++ (codes "/" ++ (codes section ++ (codes "_" ++ (to_hex i ++ o.extension))))

  abbrev pub page_with_search : Options → String → Text → Option ℕ → Text
  page_with_search o section value none = results_page o section none
  page_with_search o section value (some i) =
      results_page o section (some i) ++ (codes "?" ++ escape value)

  -- `if (domPopupSearchResultsWindow.style.display!='block') …`
  abbrev pub open_results_window : Options → Layout → SearchBox → SearchBox
  open_results_window o l b =
      let width = pos l.client_width -ℤ pos 8 in
      if text_eq b.results_window.display (codes "block")
      then b
      else if o.inside_frame
      then record b {
        close_display = codes "inline-block";
        results_window = record b.results_window {
          position = codes "relative";
          display = codes "block";
          width = width;
        };
        results_width = width;
      }
      else record b {
        close_display = codes "inline-block";
        results_window = record b.results_window {
          display = codes "block";
          top = get_y_pos l.box_chain +ℤ pos 20;
          left = (get_x_pos l.box_chain +ℤ pos 150) -ℤ pos l.results_offset_width;
        };
      }

  abbrev pub go_to_page : Options → Layout → String → Text → Option ℕ → SearchBox → SearchBox
  go_to_page o l section value i b =
      record (open_results_window o l
        (record b { key_timeout = 0; results_location = page_with_search o section value i })) {
          last_search_value = value;
          last_results_page = results_page o section i;
        }

  -- Search. `none` is the exception for a section that the index does not have.
  unfoldable pub perform_search : Options → Layout → SearchBox → Option SearchBox
  unfolding index_char get_x_pos get_y_pos
  perform_search o l b =
      let value = trim_start b.field_value in
      do
        content ← get_elem? index_sections_with_content b.search_index
        section ← get_elem? index_section_names b.search_index
        some (go_to_page o l section value (index_of (index_char value) (codes content)) b)

  -- OnSelectItem
  unfoldable pub on_select_item : Options → Layout → ℕ → SearchBox → Option SearchBox
  unfolding select_item_set
  on_select_item o l id b =
      let chosen = select_item_set id (record b { search_index = id }) in
      if not (text_eq (remove_spaces b.field_value) []) && b.search_active
      then perform_search o l chosen
      else some chosen

  -- init_search
  unfoldable pub init_search : Options → Layout → SearchBox → Option SearchBox
  unfolding label_items on_select_item
  init_search o l b = on_select_item o l 0 (add_labels b)

  -- OnSearchSelectKey
  unfoldable pub on_search_select_key : Options → Layout → ℕ → SearchBox → Option SearchBox
  on_search_select_key o l key_code b =
      if key_code == 40 && ltb b.search_index (select_item_count b.select_children)
      then on_select_item o l (b.search_index + 1) b
      else if key_code == 38 && ltb 0 b.search_index
      then on_select_item o l (b.search_index - 1) b
      else if key_code == 13 || key_code == 27
      then Option.map (λ (c : SearchBox). request focus_field (close_selection_window c))
          (on_select_item o l b.search_index b)
      else some b

-- `if (this.keyTimeout) …`
abbrev pub stop_key_timer : SearchBox → SearchBox
stop_key_timer b =
    if b.key_timeout == 0
    then b
    else record (request (clear_timeout b.key_timeout) b) { key_timeout = 0 }

abbrev pub focus_first : Option ℕ → SearchBox → SearchBox
focus_first none b = b
focus_first (some i) b = request (focus_child i) b

-- The end of OnSearchFieldChange; a timer that it sets has the number `timer`.
unfoldable pub update_search : Options → ℕ → SearchBox → SearchBox
update_search o timer b =
    let value = remove_spaces b.field_value in
    if text_eq value b.last_search_value
    then b
    else if text_eq value []
    then record (hide_results b) { last_search_value = [] }
    else record (request (set_timeout timer (o.name ++ codes ".Search()") key_timeout_length) b) {
      key_timeout = timer;
    }

-- OnSearchFieldChange
unfoldable pub on_search_field_change : Options → Layout → ℕ → Bool → ℕ → SearchBox → SearchBox
unfolding first_item update_search activate on_search_select_show
on_search_field_change o l key_code shift_key timer b =
    let b = stop_key_timer b in
    if key_code == 40 || key_code == 13
    then (if shift_key
        then focus_first (first_item 0 b.select_children) (on_search_select_show o l b)
        else update_search o timer (request take_focus b))
    else if key_code == 27
    then activate o false (record (hide_results (request blur_field b)) { last_search_value = [] })
    else update_search o timer b
