-- ===== src/Docs/DynSections/Laws.antt =====
-- Folding and unfolding: a section returns to what it was, a folder shows and hides its children in
-- turn, and the visible rows are striped.
use mathlib.Core.List.{◌++◌}
use riscv_simulator_pipeline.Base.{
  ℕ, zero, suc, ◌+◌, ◌-◌, Bool, true, false, not, ◌&&◌, ◌||◌, List, [], ◌∷◌, length, ◌≡◌, refl, ap,
  ◌∙◌, sym, Bool-cases, inl, inr, and_parts, if◌then◌else◌, arith,
}
use riscv_simulator_pipeline.Docs.Text.{Text, codes, text_eq, begins, to_lower_case}
use riscv_simulator_pipeline.Docs.Text.Laws.{take-append}
use riscv_simulator_pipeline.Docs.DynSections.{
  Section, closed_image, open_image, toggle_visibility, DirectoryRow, stripe, update_stripes,
  row_name, is_child_row, is_below, first_child_visible, hide_below, show_children, toggle_from,
  toggle_folder,
}

length-append : (s t : Text) → length (s ++ t) ≡ length s + length t
length-append [] t = omega arith
length-append (c ∷ s) t = omega (arith, length-append s t)

closed_image_lem :
    (base : Text) → closed_image (base ++ codes "open.png") ≡ base ++ codes "closed.png"
unfolding closed_image
closed_image_lem base =
    let size : length (base ++ codes "open.png") - 8 ≡ length base =
      omega (arith, length-append base (codes "open.png")) in
    rw (size, take-append base (codes "open.png")) refl

open_image_lem : (base : Text) → open_image (base ++ codes "closed.png") ≡ base ++ codes "open.png"
unfolding open_image
open_image_lem base =
    let size : length (base ++ codes "closed.png") - 10 ≡ length base =
      omega (arith, length-append base (codes "closed.png")) in
    rw (size, take-append base (codes "closed.png")) refl

-- The two states of a section whose images have a common name.
abbrev pub unfolded_section : Text → Section
unfolded_section base = record {
  content_visible = true;
  summary_visible = false;
  opened = true;
  closed = false;
  src = base ++ codes "open.png";
}

abbrev pub folded_section : Text → Section
folded_section base = record {
  content_visible = false;
  summary_visible = true;
  opened = false;
  closed = true;
  src = base ++ codes "closed.png";
}

-- both
pub toggle_visibility_lem :
    (base : Text)
    → (toggle_visibility (unfolded_section base) ≡ folded_section base)
      × (toggle_visibility (folded_section base) ≡ unfolded_section base)
unfolding toggle_visibility
toggle_visibility_lem base = (rw (closed_image_lem base) refl, rw (open_image_lem base) refl)

-- Whether each visible row is striped, in order.
abbrev pub visible_stripes : List DirectoryRow → List Bool
visible_stripes [] = []
visible_stripes (r ∷ rows) =
    let rest = visible_stripes rows in if r.visible then r.even ∷ rest else rest

abbrev pub count_visible : List DirectoryRow → ℕ
count_visible [] = 0
count_visible (r ∷ rows) = let rest = count_visible rows in if r.visible then suc rest else rest

abbrev pub alternating : Bool → ℕ → List Bool
alternating b zero = []
alternating b (suc n) = b ∷ alternating (not b) n

abbrev pub hidden_stripes : List DirectoryRow → Bool
hidden_stripes [] = false
hidden_stripes (r ∷ rows) = not r.visible && r.even || hidden_stripes rows

stripe_lem :
    (even : Bool) (rows : List DirectoryRow)
    → (visible_stripes (stripe even rows) ≡ alternating even (count_visible rows))
      × (hidden_stripes (stripe even rows) ≡ false)
unfolding stripe
stripe_lem even [] = (refl, refl)
stripe_lem even (r ∷ rows) = elim (Bool-cases r.visible) [
  | inl visible ↦
      let (stripes, others) = stripe_lem (not even) rows in
      (rw visible (ap (λ (bs : List Bool). even ∷ bs) stripes), rw visible others)
  | inr hidden ↦
      let (stripes, others) = stripe_lem even rows in (rw hidden stripes, rw hidden others)
]

-- After updateStripes the visible rows are striped in turn, the first one included, and no hidden
-- row is.
pub update_stripes_lem :
    (rows : List DirectoryRow)
    → (visible_stripes (update_stripes rows) ≡ alternating true (count_visible rows))
      × (hidden_stripes (update_stripes rows) ≡ false)
unfolding update_stripes
update_stripes_lem rows = stripe_lem true rows

-- The rows behind the first one of the folder.
unfoldable pub rows_after : Text → List DirectoryRow → List DirectoryRow
rows_after id [] = []
rows_after id (r ∷ rows) =
    let rest = rows_after id rows in if text_eq r.id (row_name id) then rows else rest

abbrev pub has_child : Text → List DirectoryRow → Bool
has_child id [] = false
has_child id (r ∷ rows) = is_child_row id r.id || has_child id rows

-- The ids of rows in lower case, as doxygen writes them.
abbrev pub AreLower : List DirectoryRow → Type 0
AreLower [] = Unit
AreLower (r ∷ rows) = (to_lower_case (λ c. c) r.id ≡ r.id) × AreLower rows

rows_after-toggle_from :
    (id : Text) (rows : List DirectoryRow)
    → rows_after id (toggle_from id rows) ≡ (
        if first_child_visible id (rows_after id rows)
        then hide_below id (rows_after id rows)
        else show_children id (rows_after id rows))
unfolding rows_after toggle_from
rows_after-toggle_from id [] = refl
rows_after-toggle_from id (r ∷ rows) = elim (Bool-cases (text_eq r.id (row_name id))) [
  | inl here ↦ elim (Bool-cases (first_child_visible id rows)) [
    | inl shown ↦ rw (here, shown, here) refl
    | inr hidden ↦ rw (here, hidden, here) refl
  ]
  | inr there ↦ rw (there, there) (rows_after-toggle_from id rows)
]

first_child-stripe :
    (id : Text) (even : Bool) (rows : List DirectoryRow)
    → first_child_visible id (stripe even rows) ≡ first_child_visible id rows
unfolding first_child_visible stripe is_child_row
first_child-stripe id even [] = refl
first_child-stripe id even (r ∷ rows) =
    ap (λ (b : Bool). if is_child_row id r.id then r.visible else b)
      (first_child-stripe id (if r.visible then not even else even) rows)

rows_after-stripe :
    (id : Text) (even : Bool) (rows : List DirectoryRow)
    → first_child_visible id (rows_after id (stripe even rows))
      ≡ first_child_visible id (rows_after id rows)
unfolding rows_after stripe
rows_after-stripe id even [] = refl
rows_after-stripe id even (r ∷ rows) = elim (Bool-cases (text_eq r.id (row_name id))) [
  | inl here ↦ rw here (first_child-stripe id (if r.visible then not even else even) rows)
  | inr there ↦ rw there (rows_after-stripe id (if r.visible then not even else even) rows)
]

is_below_of_child :
    (id row : Text)
    → to_lower_case (λ c. c) id ≡ id
    → to_lower_case (λ c. c) row ≡ row
    → is_child_row id row ≡ true
    → is_below id row ≡ true
unfolding is_child_row is_below to_lower_case
is_below_of_child id row h k child =
    let matches = (and_parts _ _ child).0 in
    let lower_id : to_lower_case (λ c. c) (row_name id) ≡ row_name id = ap row_name h in
    sym (ap (begins (row_name id)) k)
    ∙ sym (ap (λ (t : Text). begins t (to_lower_case (λ c. c) row)) lower_id)
    ∙ matches

first_child-hide_below :
    (id : Text) (rows : List DirectoryRow)
    → to_lower_case (λ c. c) id ≡ id
    → AreLower rows
    → first_child_visible id (hide_below id rows) ≡ false
unfolding first_child_visible hide_below
first_child-hide_below id [] h k = refl
first_child-hide_below id (r ∷ rows) h k =
    let ih = first_child-hide_below id rows h k.1 in
    elim (Bool-cases (is_child_row id r.id)) [
      | inl child ↦ rw (is_below_of_child id r.id h k.0 child, child) refl
      | inr other ↦ elim (Bool-cases (is_below id r.id)) [
        | inl below ↦ rw (below, other) ih
        | inr apart ↦ rw (apart, other) ih
      ]
    ]

first_child-show_children :
    (id : Text) (rows : List DirectoryRow)
    → has_child id rows ≡ true
    → first_child_visible id (show_children id rows) ≡ true
unfolding first_child_visible show_children
first_child-show_children id [] h = cc
first_child-show_children id (r ∷ rows) h = elim (Bool-cases (is_child_row id r.id)) [
  | inl child ↦ rw (child, child) refl
  | inr other ↦
      rw (other, other)
        (first_child-show_children id rows
          (ap (λ (b : Bool). b || has_child id rows) (sym other) ∙ h))
]

AreLower-rows_after :
    (id : Text) (rows : List DirectoryRow) → AreLower rows → AreLower (rows_after id rows)
unfolding rows_after
AreLower-rows_after id [] h = h
AreLower-rows_after id (r ∷ rows) h = elim (Bool-cases (text_eq r.id (row_name id))) [
  | inl here ↦ rw here (h.1)
  | inr there ↦ rw there (AreLower-rows_after id rows h.1)
]

-- For a folder and rows with ids in lower case, where a child row follows the folder's row,
-- toggleFolder shows the first child row if it was hidden and hides it if it was visible.
pub toggle_folder_lem :
    (id : Text) (rows : List DirectoryRow)
    → to_lower_case (λ c. c) id ≡ id
    → AreLower rows
    → has_child id (rows_after id rows) ≡ true
    → first_child_visible id (rows_after id (toggle_folder id rows))
      ≡ not (first_child_visible id (rows_after id rows))
unfolding toggle_folder update_stripes
toggle_folder_lem id rows h k child =
    let after = rows_after id rows in
    rows_after-stripe id true (toggle_from id rows)
    ∙ ap (first_child_visible id) (rows_after-toggle_from id rows)
    ∙ elim (Bool-cases (first_child_visible id after)) [
      | inl shown ↦ rw shown (first_child-hide_below id after h (AreLower-rows_after id rows k))
      | inr hidden ↦ rw hidden (first_child-show_children id after child)
    ]
