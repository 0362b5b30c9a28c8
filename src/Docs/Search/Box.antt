-- ===== src/Docs/Search/Box.antt =====
-- docs/html/search/search.js, SearchBox: the search panel. The elements of the page that it reads
-- and writes are fields of its state; the geometry of the page is the browser's.
pub mod Search
pub mod Select
pub mod Events
use mathlib.Core.List.{◌++◌}
use riscv_simulator_pipeline.Base.{
  ℕ, zero, suc, ◌+◌, ◌-◌, Bool, true, false, not, ◌&&◌, ◌||◌, List, [], ◌∷◌, ltb, ◌==◌,
  if◌then◌else◌,
}
use riscv_simulator_pipeline.Base.Int.{ℤ, pos, ◌+ℤ◌, ◌-ℤ◌}
use riscv_simulator_pipeline.Docs.Text.{Text, codes, text_eq, remove_spaces}

-- An element as `offsetLeft` and its like give it.
pub record OffsetBox : Type 0 where
  pub offset_left : ℤ
  pub offset_top : ℤ
  pub offset_width : ℕ
  pub offset_height : ℕ
  pub is_body : Bool

-- The loop of getXPos over an element and its offset parents, from `x` on.
unfoldable pub sum_left : ℤ → List OffsetBox → ℤ
sum_left x [] = x
sum_left x (b ∷ parents) =
    let rest = sum_left (x +ℤ b.offset_left) parents in if b.is_body then x else rest

unfoldable pub sum_top : ℤ → List OffsetBox → ℤ
sum_top y [] = y
sum_top y (b ∷ parents) =
    let rest = sum_top (y +ℤ b.offset_top) parents in if b.is_body then y else rest

-- An element without width has position 0.
unfoldable pub get_x_pos : List OffsetBox → ℤ
unfolding sum_left
get_x_pos [] = pos 0
get_x_pos (b ∷ parents) = if b.offset_width == 0 then pos 0 else sum_left (pos 0) (b ∷ parents)

unfoldable pub get_y_pos : List OffsetBox → ℤ
unfolding sum_top
get_y_pos [] = pos 0
get_y_pos (b ∷ parents) = if b.offset_width == 0 then pos 0 else sum_top (pos 0) (b ∷ parents)

-- The arguments of the constructor, with its default for `extension`.
pub record Options : Type 0 where
  pub name : Text
  pub results_path : Text
  pub inside_frame : Bool
  pub search_label : Text
  pub extension : Text

abbrev pub make_options : Text → Text → Bool → Text → Text → Options
make_options name path in_frame label extension = record {
  name = name;
  results_path = path;
  inside_frame = in_frame;
  search_label = label;
  extension = if text_eq extension [] then codes ".html" else extension;
}

-- What the handlers ask of the browser, in order. A timer comes with its number.
pub data Request : Type 0 where
  set_timeout : ℕ → Text → ℕ → Request
  clear_timeout : ℕ → Request
  focus_child : ℕ → Request
  focus_field : Request
  blur_field : Request
  take_focus : Request

-- `style.display` and the position of an element.
pub record Style : Type 0 where
  pub display : Text
  pub position : Text
  pub left : ℤ
  pub top : ℤ
  pub width : ℤ

-- A node of the selection window: its class, its action, the text of its first child and the text
-- behind that.
pub record SelectChild : Type 0 where
  pub class_name : Text
  pub on_click : Text
  pub mark : Text
  pub label : Text

-- The fields of the object, and the elements `MSearchField`, `MSearchSelectWindow`,
-- `MSearchResults`, `MSearchResultsWindow`, `MSearchClose` and `MSearchBox`.
pub record SearchBox : Type 0 where
  pub key_timeout : ℕ
  pub last_search_value : Text
  pub last_results_page : Text
  pub hide_timeout : ℕ
  pub search_index : ℕ
  pub search_active : Bool
  pub field_value : Text
  pub select_window : Style
  pub select_children : List SelectChild
  pub results_width : ℤ
  pub results_window : Style
  pub close_display : Text
  pub box_class : Text
  pub results_location : Text
  pub requests : List Request

abbrev plain_style : Style
plain_style = record { display = []; position = []; left = pos 0; top = pos 0; width = pos 0 }

-- The constructor, on a page with the given selection window and field.
unfoldable pub make_search_box : List SelectChild → Text → SearchBox
make_search_box children value = record {
  key_timeout = 0;
  last_search_value = [];
  last_results_page = [];
  hide_timeout = 0;
  search_index = 0;
  search_active = false;
  field_value = value;
  select_window = plain_style;
  select_children = children;
  results_width = pos 0;
  results_window = plain_style;
  close_display = [];
  box_class = codes "MSearchBoxInactive";
  results_location = [];
  requests = [];
}

abbrev pub key_timeout_length : ℕ
key_timeout_length = 500

abbrev pub close_selection_timeout : ℕ
close_selection_timeout = 300

abbrev pub request : Request → SearchBox → SearchBox
request r b = record b { requests = b.requests ++ (r ∷ []) }

abbrev pub show_results_window : Text → SearchBox → SearchBox
show_results_window d b = record b { results_window = record b.results_window { display = d } }

abbrev pub show_select_window : Text → SearchBox → SearchBox
show_select_window d b = record b { select_window = record b.select_window { display = d } }

abbrev pub hide_results : SearchBox → SearchBox
hide_results b = record (show_results_window (codes "none") b) { close_display = codes "none" }

-- Activate
unfoldable pub activate : Options → Bool → SearchBox → SearchBox
activate o is_active b =
    if is_active || text_eq b.results_window.display (codes "block")
    then (if text_eq b.field_value o.search_label
        then record b {
          box_class = codes "MSearchBoxActive";
          field_value = [];
          search_active = true;
        }
        else record b { box_class = codes "MSearchBoxActive" })
    else record b {
      box_class = codes "MSearchBoxInactive";
      field_value = o.search_label;
      search_active = false;
      last_search_value = [];
      last_results_page = [];
    }

unfoldable pub on_search_field_focus : Options → Bool → SearchBox → SearchBox
unfolding activate
on_search_field_focus o is_active b = activate o is_active b

-- The geometry of the page: the chain of the selection image, its width and height, the width of
-- the selection window, the chain of the box, the width of the results, the width of the body.
pub record Layout : Type 0 where
  pub select_chain : List OffsetBox
  pub select_width : ℕ
  pub select_height : ℕ
  pub select_window_width : ℕ
  pub box_chain : List OffsetBox
  pub results_offset_width : ℕ
  pub client_width : ℕ

abbrev place_select_window : ℤ → ℤ → SearchBox → SearchBox
place_select_window left top b = record b {
  select_window = record b.select_window { display = codes "block"; left = left; top = top };
}

-- `if (this.hideTimeout) …`
abbrev pub stop_hide_timer : SearchBox → SearchBox
stop_hide_timer b =
    if b.hide_timeout == 0
    then b
    else record (request (clear_timeout b.hide_timeout) b) { hide_timeout = 0 }

unfoldable pub on_search_select_show : Options → Layout → SearchBox → SearchBox
unfolding get_x_pos get_y_pos
on_search_select_show o l b =
    let left = get_x_pos l.select_chain in
    let top = get_y_pos l.select_chain +ℤ pos l.select_height in
    stop_hide_timer (
      if o.inside_frame
      then place_select_window ((left +ℤ pos (l.select_width + 6)) -ℤ pos l.select_window_width) top
          b
      else place_select_window left top b)

-- With the number that `setTimeout` gives the timer.
unfoldable pub on_search_select_hide : Options → ℕ → SearchBox → SearchBox
on_search_select_hide o timer b =
    record (request
      (set_timeout timer (o.name ++ codes ".CloseSelectionWindow()") close_selection_timeout) b) {
        hide_timeout = timer;
      }

unfoldable pub close_results_window : Options → SearchBox → SearchBox
unfolding activate
close_results_window o b = activate o false (hide_results b)

unfoldable pub close_selection_window : SearchBox → SearchBox
close_selection_window b = show_select_window (codes "none") b
