-- ===== src/Docs/Search/Box/Events.antt =====
-- The search panel as a state machine: its handlers in any order.
use Prim.Native.String.{String}
use mathlib.Core.Option
use riscv_simulator_pipeline.Base.{
  ℕ, ◌+◌, ◌-◌, Bool, true, false, not, ◌&&◌, ◌||◌, List, [], ◌∷◌, Option, none, some, ltb, ◌==◌,
  ◌≡◌, refl, Bool-cases, inl, inr, get_elem?,
}
use riscv_simulator_pipeline.Docs.Text.{Text, codes, text_eq, remove_spaces, trim_start, index_of}
use riscv_simulator_pipeline.Docs.Search.Sections.{index_sections_with_content, index_section_names}
use riscv_simulator_pipeline.Docs.Search.Box.{
  Options, Layout, SearchBox, activate, on_search_field_focus, on_search_select_show,
  on_search_select_hide, close_results_window, close_selection_window, stop_hide_timer, request,
  focus_field, take_focus, blur_field, hide_results, make_search_box, SelectChild,
}
use riscv_simulator_pipeline.Docs.Search.Box.Search.{
  ◌>>=◌, select_item_count, index_char, go_to_page, update_search, stop_key_timer, focus_first,
  first_item, select_item_set, perform_search, on_select_item, on_search_select_key,
  on_search_field_change, init_search, add_labels,
}

-- What happens to the panel: the browser's events and its timers, and what is typed into the field.
pub data Event : Type 0 where
  type_text : Text → Event
  field_focus : Bool → Event
  select_show : Event
  select_hide : ℕ → Event
  field_change : ℕ → Bool → ℕ → Event
  select_item : ℕ → Event
  select_key : ℕ → Event
  close_results close_selection run_search : Event

module _ (wide : ℕ → ℕ) (above_one : Text → Bool) (o : Options) (l : Layout) where
  unfoldable pub handle : Event → SearchBox → Option SearchBox
  handle (type_text value) b = some (record b { field_value = value })
  handle (field_focus is_active) b = some (on_search_field_focus o is_active b)
  handle select_show b = some (on_search_select_show o l b)
  handle (select_hide timer) b = some (on_search_select_hide o timer b)
  handle (field_change key_code shift_key timer) b =
      some (on_search_field_change o l key_code shift_key timer b)
  handle (select_item id) b = on_select_item wide above_one o l id b
  handle (select_key key_code) b = on_search_select_key wide above_one o l key_code b
  handle close_results b = some (close_results_window o b)
  handle close_selection b = some (close_selection_window b)
  handle run_search b = perform_search wide above_one o l b

  -- Events one after the other, up to an exception.
  unfoldable pub handle_all : List Event → SearchBox → Option SearchBox
  handle_all [] b = some b
  handle_all (e ∷ es) b = handle e b >>= λ c. handle_all es c

-- The button that closes the results is shown exactly while the results are, and the box has the
-- active class whenever `searchActive` is set.
pub record Agree (close_display results_display : Text) (active : Bool) (box_class : Text)
    : Type 0 where
  pub closable :
      text_eq close_display (codes "inline-block") ≡ text_eq results_display (codes "block")
  pub activated : active ≡ true → box_class ≡ codes "MSearchBoxActive"

abbrev pub IsConsistent : SearchBox → Type 0
IsConsistent b = Agree b.close_display b.results_window.display b.search_active b.box_class

abbrev pub AllConsistent : Option SearchBox → Type 0
AllConsistent none = Unit
AllConsistent (some b) = IsConsistent b

activate-IsConsistent :
    (o : Options) (a : Bool) (b : SearchBox) → IsConsistent b → IsConsistent (activate o a b)
unfolding activate
activate-IsConsistent o a b v =
    elim (Bool-cases (a || text_eq b.results_window.display (codes "block"))) [
      | inl opens ↦ elim (Bool-cases (text_eq b.field_value o.search_label)) [
        | inl label ↦ rw (opens, label) (record { closable = v.closable; activated = λ _. refl })
        | inr word ↦ rw (opens, word) (record { closable = v.closable; activated = λ _. refl })
      ]
      | inr closes ↦ rw closes (record { closable = v.closable; activated = λ h. cc })
    ]

update_search-IsConsistent :
    (o : Options) (timer : ℕ) (b : SearchBox)
    → IsConsistent b
    → IsConsistent (update_search o timer b)
unfolding update_search text_eq
update_search-IsConsistent o timer b v =
    elim (Bool-cases (text_eq (remove_spaces b.field_value) b.last_search_value)) [
      | inl same ↦ rw same v
      | inr changed ↦ elim (Bool-cases (text_eq (remove_spaces b.field_value) [])) [
        | inl empty ↦ rw (changed, empty) (record { closable = refl; activated = v.activated })
        | inr word ↦ rw (changed, word) v
      ]
    ]

stop_hide_timer-IsConsistent : (b : SearchBox) → IsConsistent b → IsConsistent (stop_hide_timer b)
stop_hide_timer-IsConsistent b v = elim (Bool-cases (b.hide_timeout == 0)) [
  | inl idle ↦ rw idle v
  | inr runs ↦ rw runs v
]

on_search_select_show-IsConsistent :
    (o : Options) (l : Layout) (b : SearchBox)
    → IsConsistent b
    → IsConsistent (on_search_select_show o l b)
unfolding on_search_select_show
on_search_select_show-IsConsistent o l b v = elim (Bool-cases o.inside_frame) [
  | inl inside ↦ rw inside (stop_hide_timer-IsConsistent _ v)
  | inr outside ↦ rw outside (stop_hide_timer-IsConsistent _ v)
]

stop_key_timer-IsConsistent : (b : SearchBox) → IsConsistent b → IsConsistent (stop_key_timer b)
stop_key_timer-IsConsistent b v = elim (Bool-cases (b.key_timeout == 0)) [
  | inl idle ↦ rw idle v
  | inr runs ↦ rw runs v
]

focus_first-IsConsistent :
    (i : Option ℕ) (b : SearchBox) → IsConsistent b → IsConsistent (focus_first i b)
focus_first-IsConsistent none b v = v
focus_first-IsConsistent (some i) b v = v

on_search_field_change-IsConsistent :
    (o : Options) (l : Layout) (key_code : ℕ) (shift_key : Bool) (timer : ℕ) (b : SearchBox)
    → IsConsistent b
    → IsConsistent (on_search_field_change o l key_code shift_key timer b)
unfolding on_search_field_change text_eq
on_search_field_change-IsConsistent o l key_code shift_key timer b v =
    let stopped = stop_key_timer-IsConsistent b v in
    elim (Bool-cases (key_code == 40 || key_code == 13)) [
      | inl down ↦ elim (Bool-cases shift_key) [
        | inl shift ↦
            rw (down, shift)
              (focus_first-IsConsistent (first_item 0 (stop_key_timer b).select_children)
                (on_search_select_show o l (stop_key_timer b))
                (on_search_select_show-IsConsistent o l (stop_key_timer b) stopped))
        | inr plain ↦
            rw (down, plain)
              (update_search-IsConsistent o timer (request take_focus (stop_key_timer b)) stopped)
      ]
      | inr not_down ↦ elim (Bool-cases (key_code == 27)) [
        | inl escape ↦
            rw (not_down, escape)
              (activate-IsConsistent o false
                (record (hide_results (request blur_field (stop_key_timer b))) {
                  last_search_value = [];
                })
                (record { closable = refl; activated = stopped.activated }))
        | inr other ↦
            rw (not_down, other) (update_search-IsConsistent o timer (stop_key_timer b) stopped)
      ]
    ]

module _ (wide : ℕ → ℕ) (above_one : Text → Bool) (o : Options) (l : Layout) where
  go_to_page-IsConsistent :
      (section : String) (value : Text) (i : Option ℕ) (b : SearchBox)
      → IsConsistent b
      → IsConsistent (go_to_page wide above_one o l section value i b)
  unfolding text_eq
  go_to_page-IsConsistent section value i b v =
      elim (Bool-cases (text_eq b.results_window.display (codes "block"))) [
        | inl shown ↦ rw shown v
        | inr hidden ↦ elim (Bool-cases o.inside_frame) [
          | inl inside ↦ rw (hidden, inside) (record { closable = refl; activated = v.activated })
          | inr outside ↦ rw (hidden, outside) (record { closable = refl; activated = v.activated })
        ]
      ]

  perform_search-IsConsistent :
      (b : SearchBox) → IsConsistent b → AllConsistent (perform_search wide above_one o l b)
  unfolding perform_search
  perform_search-IsConsistent b v =
      go (get_elem? index_sections_with_content b.search_index)
        (get_elem? index_section_names b.search_index)
    where
      go :
          (content section : Option String)
          → AllConsistent (
              content >>= λ content. section >>= λ section. some (
                go_to_page wide above_one o l section
                  (trim_start b.field_value)
                  (index_of (index_char wide above_one (trim_start b.field_value)) (codes content))
                  b))
      go none section = tt
      go (some content) none = tt
      go (some content) (some section) = go_to_page-IsConsistent section _ _ b v

  on_select_item-IsConsistent :
      (id : ℕ) (b : SearchBox)
      → IsConsistent b
      → AllConsistent (on_select_item wide above_one o l id b)
  unfolding on_select_item select_item_set
  on_select_item-IsConsistent id b v =
      elim (Bool-cases (not (text_eq (remove_spaces b.field_value) []) && b.search_active)) [
        | inl searches ↦ rw searches (perform_search-IsConsistent _ v)
        | inr idle ↦ rw idle v
      ]

  closed-IsConsistent :
      (m : Option SearchBox)
      → AllConsistent m
      → AllConsistent
          (Option.map (λ (c : SearchBox). request focus_field (close_selection_window c)) m)
  unfolding close_selection_window
  closed-IsConsistent none v = tt
  closed-IsConsistent (some c) v = v

  on_search_select_key-IsConsistent :
      (key_code : ℕ) (b : SearchBox)
      → IsConsistent b
      → AllConsistent (on_search_select_key wide above_one o l key_code b)
  unfolding on_search_select_key
  on_search_select_key-IsConsistent key_code b v =
      let n = select_item_count b.select_children in
      elim (Bool-cases (key_code == 40 && ltb b.search_index n)) [
        | inl down ↦ rw down (on_select_item-IsConsistent (b.search_index + 1) b v)
        | inr not_down ↦ elim (Bool-cases (key_code == 38 && ltb 0 b.search_index)) [
          | inl up ↦ rw (not_down, up) (on_select_item-IsConsistent (b.search_index - 1) b v)
          | inr not_up ↦ elim (Bool-cases (key_code == 13 || key_code == 27)) [
            | inl chosen ↦
                rw (not_down, not_up, chosen)
                  (closed-IsConsistent _ (on_select_item-IsConsistent b.search_index b v))
            | inr other ↦ rw (not_down, not_up, other) v
          ]
        ]
      ]

  handle-IsConsistent :
      (e : Event) (b : SearchBox) → IsConsistent b → AllConsistent (handle wide above_one o l e b)
  unfolding handle on_search_select_hide close_results_window close_selection_window text_eq
  handle-IsConsistent (type_text value) b v = v
  handle-IsConsistent (field_focus is_active) b v =
      unfold on_search_field_focus in activate-IsConsistent o is_active b v
  handle-IsConsistent select_show b v = on_search_select_show-IsConsistent o l b v
  handle-IsConsistent (select_hide timer) b v = v
  handle-IsConsistent (field_change key_code shift_key timer) b v =
      on_search_field_change-IsConsistent o l key_code shift_key timer b v
  handle-IsConsistent (select_item id) b v = on_select_item-IsConsistent id b v
  handle-IsConsistent (select_key key_code) b v = on_search_select_key-IsConsistent key_code b v
  handle-IsConsistent close_results b v =
      activate-IsConsistent o false (hide_results b)
        (record { closable = refl; activated = v.activated })
  handle-IsConsistent close_selection b v = v
  handle-IsConsistent run_search b v = perform_search-IsConsistent b v

  handle_all-from :
      (es : List Event) (m : Option SearchBox)
      → AllConsistent m
      → AllConsistent (m >>= λ b. handle_all wide above_one o l es b)
  unfolding handle_all
  handle_all-from es none v = tt
  handle_all-from [] (some b) v = v
  handle_all-from (e ∷ es) (some b) v =
      handle_all-from es (handle wide above_one o l e b) (handle-IsConsistent e b v)

  -- After init_search and any sequence of events that throws no exception, on any page and with
  -- any field, the search panel shows the button that closes the results exactly while it shows
  -- the results, and its box has the active class whenever searchActive is set.
  pub handle_all-IsConsistent :
      (es : List Event) (children : List SelectChild) (value : Text)
      → AllConsistent (
          init_search wide above_one o l (make_search_box children value) >>= λ b.
          handle_all wide above_one o l es b)
  unfolding init_search make_search_box
  handle_all-IsConsistent es children value =
      handle_all-from es (init_search wide above_one o l (make_search_box children value)) (
        on_select_item-IsConsistent 0 (add_labels (make_search_box children value))
          (record { closable = unfold text_eq in refl; activated = λ h. cc }))
