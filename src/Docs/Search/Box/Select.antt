-- ===== src/Docs/Search/Box/Select.antt =====
-- The selection of a section in the search panel: its marks, and the range of its number.
use Prim.Native.String.{String}
use mathlib.Core.Path.{subst}
use mathlib.Core.Option
use riscv_simulator_pipeline.Base.{
  ℕ, zero, suc, ◌+◌, ◌-◌, ◌≤◌, ◌<◌, Bool, true, false, not, ◌&&◌, ◌||◌, List, [], ◌∷◌, Option, none,
  some, ltb, ◌==◌, ◌≡◌, refl, ap, ◌∙◌, Bool-cases, inl, inr, if◌then◌else◌, get_elem?,
  get_elem?-none, get_elem?-some, arith,
}
use riscv_simulator_pipeline.Docs.Text.{Text, codes, text_eq, remove_spaces, trim_start, index_of}
use riscv_simulator_pipeline.Docs.Search.Sections.{index_sections_with_content, index_section_names}
use riscv_simulator_pipeline.Docs.Search.Box.{
  Options, Layout, SearchBox, SelectChild, close_selection_window, request, focus_field,
}
use riscv_simulator_pipeline.Docs.Search.Box.Search.{
  ◌>>=◌, is_select_item, select_item_count, mark_items, select_item_set, index_char, perform_search,
  go_to_page, on_select_item, on_search_select_key,
}

count-mark_items :
    (id j : ℕ) (children : List SelectChild)
    → select_item_count (mark_items id j children) ≡ select_item_count children
unfolding mark_items select_item_count
count-mark_items id j [] = refl
count-mark_items id j (child ∷ children) = elim (Bool-cases (is_select_item child)) [
  | inl item ↦ rw (item, item) (ap (λ (n : ℕ). 1 + n) (count-mark_items id (j + 1) children))
  | inr other ↦ rw (other, other) (ap (λ (n : ℕ). 0 + n) (count-mark_items id j children))
]

-- The number of items among the first `k` children.
unfoldable pub items_before : ℕ → List SelectChild → ℕ
items_before zero children = 0
items_before (suc k) [] = 0
items_before (suc k) (child ∷ children) =
    (if text_eq child.class_name (codes "SelectItem") then 1 else 0) + items_before k children

-- A child that is the item number `j`, or no item, when the item number `id` is selected.
abbrev pub marked : ℕ → ℕ → SelectChild → SelectChild
marked id j child =
    if text_eq child.class_name (codes "SelectItem")
    then record child { mark = if j == id then codes "&#8226;" else codes "&#160;" }
    else child

get_elem?-mark_items :
    (id j : ℕ) (children : List SelectChild) (k : ℕ)
    → get_elem? (mark_items id j children) k
      ≡ Option.map (marked id (j + items_before k children)) (get_elem? children k)
unfolding mark_items items_before
get_elem?-mark_items id j [] k = refl
get_elem?-mark_items id j (child ∷ children) zero =
    let here : j + 0 ≡ j = omega arith in
    elim (Bool-cases (is_select_item child)) [
      | inl item ↦ rw (item, here) refl
      | inr other ↦ rw other refl
    ]
get_elem?-mark_items id j (child ∷ children) (suc k) =
    let n = items_before k children in
    let next : j + (1 + n) ≡ (j + 1) + n = omega arith in
    let skip : j + (0 + n) ≡ j + n = omega arith in
    elim (Bool-cases (is_select_item child)) [
      | inl item ↦ rw (item, next) (get_elem?-mark_items id (j + 1) children k)
      | inr other ↦ rw (other, skip) (get_elem?-mark_items id j children k)
    ]

-- SelectItemSet gives the item of its number the mark of the selection and every other item a
-- blank, where the items are numbered in the order of the children, and changes nothing else
-- about them and no child that is no item.
pub get_elem?-select_item_set :
    (id : ℕ) (b : SearchBox) (k : ℕ)
    → get_elem? (select_item_set id b).select_children k
      ≡ Option.map (marked id (items_before k b.select_children)) (get_elem? b.select_children k)
unfolding select_item_set
get_elem?-select_item_set id b k =
    let start : 0 + items_before k b.select_children ≡ items_before k b.select_children =
      omega arith in
    get_elem?-mark_items id 0 b.select_children k ∙ rw start refl

-- What an operation that may fail leaves of the selection.
abbrev KeepsSelection : ℕ → ℕ → Option SearchBox → Type 0
KeepsSelection index count none = Unit
KeepsSelection index count (some c) =
    (c.search_index ≡ index) × (select_item_count c.select_children ≡ count)

-- The number of the selection stays in the range that the keys allow: one past the last item.
abbrev pub InRange : Option SearchBox → Type 0
InRange none = Unit
InRange (some c) = c.search_index ≤ select_item_count c.select_children

module _ (wide : ℕ → ℕ) (above_one : Text → Bool) (o : Options) (l : Layout) where
  go_to_page-selection :
      (section : String) (value : Text) (i : Option ℕ) (b : SearchBox)
      → KeepsSelection b.search_index
          (select_item_count b.select_children)
          (some (go_to_page wide above_one o l section value i b))
  go_to_page-selection section value i b =
      elim (Bool-cases (text_eq b.results_window.display (codes "block"))) [
        | inl shown ↦ rw shown (refl, refl)
        | inr hidden ↦ elim (Bool-cases o.inside_frame) [
          | inl inside ↦ rw (hidden, inside) (refl, refl)
          | inr outside ↦ rw (hidden, outside) (refl, refl)
        ]
      ]

  -- Search changes neither the selection nor the number of items.
  perform_search-selection :
      (b : SearchBox)
      → KeepsSelection b.search_index
          (select_item_count b.select_children)
          (perform_search wide above_one o l b)
  unfolding perform_search
  perform_search-selection b =
      go (get_elem? index_sections_with_content b.search_index)
        (get_elem? index_section_names b.search_index)
    where
      go :
          (content section : Option String)
          → KeepsSelection b.search_index (select_item_count b.select_children) (
              content >>= λ content. section >>= λ section. some (
                go_to_page wide above_one o l section
                  (trim_start b.field_value)
                  (index_of (index_char wide above_one (trim_start b.field_value)) (codes content))
                  b))
      go none section = tt
      go (some content) none = tt
      go (some content) (some section) =
          go_to_page-selection section (trim_start b.field_value)
            (index_of (index_char wide above_one (trim_start b.field_value)) (codes content)) b

  on_select_item-selection :
      (b : SearchBox) (id : ℕ)
      → KeepsSelection id
          (select_item_count b.select_children)
          (on_select_item wide above_one o l id b)
  unfolding on_select_item select_item_set
  on_select_item-selection b id =
      let chosen : SearchBox = select_item_set id (record b { search_index = id }) in
      let count : select_item_count chosen.select_children ≡ select_item_count b.select_children =
        count-mark_items id 0 b.select_children in
      elim (Bool-cases (not (text_eq (remove_spaces b.field_value) []) && b.search_active)) [
        | inl searches ↦ rw searches (
            subst (λ (n : ℕ). KeepsSelection id n (perform_search wide above_one o l chosen)) count
              (perform_search-selection chosen))
        | inr idle ↦ rw idle (refl, count)
      ]

  InRange-of_keeps :
      (index count : ℕ) (m : Option SearchBox)
      → index ≤ count
      → KeepsSelection index count m
      → InRange m
  InRange-of_keeps index count none h k = tt
  InRange-of_keeps index count (some c) h k = omega (arith, k)

  InRange-map :
      (m : Option SearchBox)
      → InRange m
      → InRange (Option.map (λ (c : SearchBox). request focus_field (close_selection_window c)) m)
  unfolding close_selection_window
  InRange-map none h = tt
  InRange-map (some c) h = h

  -- From a number of the selection up to the number of items, a key in the selection window that
  -- throws no exception leaves it up to the number of items.
  pub on_search_select_key-InRange :
      (b : SearchBox) (key_code : ℕ)
      → b.search_index ≤ select_item_count b.select_children
      → InRange (on_search_select_key wide above_one o l key_code b)
  unfolding on_search_select_key
  on_search_select_key-InRange b key_code k =
      let n = select_item_count b.select_children in
      elim (Bool-cases (key_code == 40 && ltb b.search_index n)) [
        | inl down ↦ rw down (
            InRange-of_keeps (b.search_index + 1) n _ (ground (arith, down))
              (on_select_item-selection b (b.search_index + 1)))
        | inr not_down ↦ elim (Bool-cases (key_code == 38 && ltb 0 b.search_index)) [
          | inl up ↦
              rw (not_down, up)
                (InRange-of_keeps (b.search_index - 1) n _ (omega arith)
                  (on_select_item-selection b (b.search_index - 1)))
          | inr not_up ↦ elim (Bool-cases (key_code == 13 || key_code == 27)) [
            | inl chosen ↦
                rw (not_down, not_up, chosen)
                  (InRange-map _ (
                    InRange-of_keeps b.search_index n _ k
                      (on_select_item-selection b b.search_index)))
            | inr other ↦ rw (not_down, not_up, other) k
          ]
        ]
      ]

  -- The index has eleven sections.
  pub perform_search-none :
      (b : SearchBox) → 11 ≤ b.search_index → perform_search wide above_one o l b ≡ none
  unfolding perform_search
  perform_search-none b h =
      rw (get_elem?-none index_sections_with_content b.search_index h, ◌>>=◌) refl

  pub perform_search-some :
      (b : SearchBox)
      → b.search_index < 11
      → (c : SearchBox) × (perform_search wide above_one o l b ≡ some c)
  unfolding perform_search
  perform_search-some b h =
      let (content, has_content) = get_elem?-some index_sections_with_content b.search_index h in
      let (section, has_section) = get_elem?-some index_section_names b.search_index h in
      let value = trim_start b.field_value in
      (
        go_to_page wide above_one o l section value
            (index_of (index_char wide above_one value) (codes content)) b,
        rw (has_content, has_section, ◌>>=◌) refl,
      )

  -- On the last of eleven items, while a word is searched, the Down key throws: the selection
  -- moves past the sections of the index.
  pub down_past_last :
      (b : SearchBox)
      → select_item_count b.select_children ≡ 11
      → b.search_index ≡ 10
      → b.search_active ≡ true
      → text_eq (remove_spaces b.field_value) [] ≡ false
      → on_search_select_key wide above_one o l 40 b ≡ none
  unfolding on_search_select_key on_select_item
  down_past_last b items last active word =
      let below : ltb b.search_index (select_item_count b.select_children) ≡ true =
        ground (arith, items, last) in
      rw (below, word, active) (perform_search-none _ (omega (arith, last)))
