-- ===== src/Docs/DynSections.antt =====
-- docs/html/dynsections.js: the sections and directory rows that fold. jQuery's selections are
-- functions on the rows of the table; its effects on classes, texts and displays are fields.
pub mod Laws
use mathlib.Core.List.{◌++◌}
use riscv_simulator_pipeline.Base.{
  ℕ, zero, suc, ◌+◌, ◌-◌, Bool, true, false, not, ◌&&◌, ◌||◌, List, [], ◌∷◌, Option, none, some,
  ltb, leb, ◌==◌, if◌then◌else◌, length,
}
use riscv_simulator_pipeline.Docs.Text.{Text, codes, text_eq, take, begins, drop, to_lower_case}

-- A section that folds: what is visible of it, the classes of its link, the image of its trigger.
pub record Section : Type 0 where
  pub content_visible : Bool
  pub summary_visible : Bool
  pub opened : Bool
  pub closed : Bool
  pub src : Text

-- `src.substring(0,src.length-8)+'closed.png'` and `src.substring(0,src.length-10)+'open.png'`
unfoldable pub closed_image : Text → Text
closed_image src = take (length src - 8) src ++ codes "closed.png"

unfoldable pub open_image : Text → Text
open_image src = take (length src - 10) src ++ codes "open.png"

unfoldable pub toggle_visibility : Section → Section
unfolding closed_image open_image
toggle_visibility s =
    if s.content_visible
    then record {
      content_visible = false;
      summary_visible = true;
      opened = false;
      closed = true;
      src = closed_image s.src;
    }
    else record {
      content_visible = true;
      summary_visible = false;
      opened = true;
      closed = false;
      src = open_image s.src;
    }

-- The rows that a class inherits, and the image of their header.
pub record Inherited : Type 0 where
  pub visible_rows : List Bool
  pub image : Text

abbrev set_all : Bool → List Bool → List Bool
set_all v [] = []
set_all v (b ∷ rows) = v ∷ set_all v rows

-- `rows.filter(':first').is(':visible')`
abbrev first_visible : List Bool → Bool
first_visible [] = false
first_visible (v ∷ rows) = v

unfoldable pub toggle_inherit : Inherited → Inherited
unfolding closed_image open_image
toggle_inherit s =
    if first_visible s.visible_rows
    then record { visible_rows = set_all false s.visible_rows; image = closed_image s.image }
    else record { visible_rows = set_all true s.visible_rows; image = open_image s.image }

-- A row of the directory, with the classes of its folder icon and the text of its arrow.
pub record DirectoryRow : Type 0 where
  pub id : Text
  pub visible : Bool
  pub even : Bool
  pub icon_open : Bool
  pub icon_closed : Bool
  pub arrow : Text

-- updateStripes, from a visible row that is even or not on.
unfoldable pub stripe : Bool → List DirectoryRow → List DirectoryRow
stripe even [] = []
stripe even (r ∷ rows) =
    (record r { even = r.visible && even }) ∷ stripe (if r.visible then not even else even) rows

unfoldable pub update_stripes : List DirectoryRow → List DirectoryRow
unfolding stripe
update_stripes rows = stripe true rows

-- `id.split('_').length-1`
unfoldable pub count_underscores : Text → ℕ
count_underscores [] = 0
count_underscores (c ∷ s) = (if c == b'_' then 1 else 0) + count_underscores s

abbrev pub down_arrow : Text
down_arrow = codes "&#9660;"

abbrev pub right_arrow : Text
right_arrow = codes "&#9658;"

-- The body of the loop of toggleLevel.
unfoldable pub show_level : ℕ → DirectoryRow → DirectoryRow
unfolding count_underscores
show_level level r =
    let l = count_underscores r.id in
    if ltb l (level + 1)
    then record r { icon_open = true; icon_closed = false; arrow = down_arrow; visible = true }
    else if l == (level + 1)
    then record r { icon_open = false; icon_closed = true; arrow = right_arrow; visible = true }
    else record r { visible = false }

unfoldable pub show_levels : ℕ → List DirectoryRow → List DirectoryRow
unfolding show_level
show_levels level [] = []
show_levels level (r ∷ rows) = show_level level r ∷ show_levels level rows

unfoldable pub toggle_level : ℕ → List DirectoryRow → List DirectoryRow
unfolding show_levels update_stripes
toggle_level level rows = update_stripes (show_levels level rows)

-- `'row_'+id`
abbrev pub row_name : Text → Text
row_name id = codes "row_" ++ id

-- The case of a regular expression with the flag `i`, over the ids, which are ASCII.
abbrev fold_case : Text → Text
fold_case = to_lower_case (λ c. c)

-- `\d+_$`
unfoldable pub ends_number : Bool → Text → Bool
ends_number seen [] = false
ends_number seen (c ∷ s) =
    let more = ends_number true s in
    if leb b'0' c && leb c b'9' then more else seen && c == b'_' && text_eq s []

-- The test of `childRows`, `^row_`, the id, `\d+_$`.
unfoldable pub is_child_row : Text → Text → Bool
unfolding ends_number
is_child_row id row =
    begins (fold_case (row_name id)) (fold_case row)
    && ends_number false (drop (length (row_name id)) row)

-- `[id^=row_…]`
unfoldable pub is_below : Text → Text → Bool
is_below id row = begins (row_name id) row

-- `childRows.filter(':first').is(':visible')`
unfoldable pub first_child_visible : Text → List DirectoryRow → Bool
first_child_visible id [] = false
first_child_visible id (r ∷ rows) =
    let rest = first_child_visible id rows in if is_child_row id r.id then r.visible else rest

-- `.filter(".iconfopen").removeClass("iconfopen").addClass("iconfclosed")` and its converse.
abbrev close_icon : DirectoryRow → DirectoryRow
close_icon r = record r {
  icon_open = false;
  icon_closed = r.icon_open || r.icon_closed;
  arrow = right_arrow;
}

abbrev open_icon : DirectoryRow → DirectoryRow
open_icon r = record r {
  icon_open = r.icon_closed || r.icon_open;
  icon_closed = false;
  arrow = down_arrow;
}

unfoldable pub hide_below : Text → List DirectoryRow → List DirectoryRow
hide_below id [] = []
hide_below id (r ∷ rows) =
    (if is_below id r.id then record r { visible = false } else r) ∷ hide_below id rows

unfoldable pub show_children : Text → List DirectoryRow → List DirectoryRow
show_children id [] = []
show_children id (r ∷ rows) =
    (if is_child_row id r.id then record (close_icon r) { visible = true } else r)
    ∷ show_children id rows

-- From the clicked row on: it and the rows after it.
unfoldable pub toggle_from : Text → List DirectoryRow → List DirectoryRow
unfolding first_child_visible hide_below show_children
toggle_from id [] = []
toggle_from id (r ∷ rows) =
    let rest = toggle_from id rows in
    if text_eq r.id (row_name id)
    then (if first_child_visible id rows
        then close_icon r ∷ hide_below id rows
        else open_icon r ∷ show_children id rows)
    else r ∷ rest

unfoldable pub toggle_folder : Text → List DirectoryRow → List DirectoryRow
unfolding toggle_from update_stripes
toggle_folder id rows = update_stripes (toggle_from id rows)
