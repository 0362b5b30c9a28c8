-- ===== src/Docs/Search/HandOver.antt =====
-- From the search panel to the results page: the word that SearchBox.Search puts in the URL is the
-- one that SearchResults.Search reads.
use Prim.Native.String.{String}
use mathlib.Core.Path.{subst}
use mathlib.Core.Option.{some-injective}
use mathlib.Core.List.{◌++◌}
use riscv_simulator_pipeline.Base.{
  ℕ, zero, suc, ◌/◌, ◌%◌, ◌<◌, Bool, true, false, List, [], ◌∷◌, some, ltb, ◌==◌, ◌≡◌, refl, ap,
  ◌∙◌, Bool-cases, inl, inr, if◌then◌else◌, get_elem?, get_elem?-map, arith,
}
use riscv_simulator_pipeline.Docs.Text.{
  Text, codes, text_eq, trim_start, trim_end, to_lower_case, drop, index_of, to_hex, radix_digits,
  digit,
}
use riscv_simulator_pipeline.Docs.Escape.{escape}
use riscv_simulator_pipeline.Docs.Escape.Laws.{IsUtf16, unescape-escape}
use riscv_simulator_pipeline.Docs.Search.Sections.{index_sections_with_content, index_section_names}
use riscv_simulator_pipeline.Docs.Search.Box.{Options, Layout, SearchBox}
use riscv_simulator_pipeline.Docs.Search.Box.Search.{
  ◌>>=◌, index_char, results_page, page_with_search, go_to_page, open_results_window,
  perform_search,
}
use riscv_simulator_pipeline.Docs.Search.Results.{search_word, search_id, search_results}
use riscv_simulator_pipeline.Docs.Search.Results.Rows.{is_shown, shown_display}
use riscv_simulator_pipeline.Docs.Search.Results.Finds.{
  is_indexed, loaded_page, row_displays, search_results-loaded, shown_of_prefix,
}
use riscv_simulator_pipeline.Docs.Search.Entry.{SearchEntry, name_of}
use riscv_simulator_pipeline.Docs.Text.Laws.{text_eq_iff}

-- `window.location.search`: the URL from its `?` on.
unfoldable pub location_search : Text → Text
location_search [] = []
location_search (c ∷ url) = if c == b'?' then c ∷ url else location_search url

-- Texts without a `?`.
abbrev pub HasNoQuery : Text → Type 0
HasNoQuery [] = Unit
HasNoQuery (c ∷ s) = ((c == b'?') ≡ false) × HasNoQuery s

HasNoQuery-append : (s t : Text) → HasNoQuery s → HasNoQuery t → HasNoQuery (s ++ t)
HasNoQuery-append [] t h k = k
HasNoQuery-append (c ∷ s) t h k = (h.0, HasNoQuery-append s t h.1 k)

location_search-append : (s t : Text) → HasNoQuery s → location_search (s ++ (b'?' ∷ t)) ≡ b'?' ∷ t
unfolding location_search
location_search-append [] t h = refl
location_search-append (c ∷ s) t h = rw (h.0) (location_search-append s t h.1)

digit-ne : (d : ℕ) → d < 16 → (digit d == b'?') ≡ false
unfolding digit
digit-ne d h = ground arith

radix_digits-HasNoQuery :
    (fuel n : ℕ) (out : Text) → HasNoQuery out → HasNoQuery (radix_digits fuel 16 n out)
unfolding radix_digits
radix_digits-HasNoQuery zero n out h = h
radix_digits-HasNoQuery (suc fuel) n out h = elim (Bool-cases (ltb n 16)) [
  | inl last ↦ rw last (digit-ne n (ground (arith, last)), h)
  | inr more ↦ rw more (
      radix_digits-HasNoQuery fuel (n / 16) (digit (n % 16) ∷ out)
        (digit-ne (n % 16) (omega arith), h))
]

abbrev NamesHaveNoQuery : List String → Type 0
NamesHaveNoQuery [] = Unit
NamesHaveNoQuery (name ∷ names) = HasNoQuery (codes name) × NamesHaveNoQuery names

NamesHaveNoQuery-get_elem? :
    (names : List String) (i : ℕ) (name : String)
    → NamesHaveNoQuery names
    → get_elem? names i ≡ some name
    → HasNoQuery (codes name)
NamesHaveNoQuery-get_elem? [] i name h e = cc
NamesHaveNoQuery-get_elem? (n ∷ names) zero name h e =
    subst (λ (m : String). HasNoQuery (codes m)) (some-injective n name e) h.0
NamesHaveNoQuery-get_elem? (n ∷ names) (suc i) name h e =
    NamesHaveNoQuery-get_elem? names i name h.1 e

index_section_names-HasNoQuery : NamesHaveNoQuery index_section_names
index_section_names-HasNoQuery = search tt

trim_start-IsUtf16 : (s : Text) → IsUtf16 s → IsUtf16 (trim_start s)
unfolding trim_start
trim_start-IsUtf16 [] h = h
trim_start-IsUtf16 (c ∷ s) h = elim (Bool-cases (c == b' ')) [
  | inl space ↦ rw space (trim_start-IsUtf16 s h.1)
  | inr other ↦ rw other h
]

trim_start_idem : (s : Text) → trim_start (trim_start s) ≡ trim_start s
unfolding trim_start
trim_start_idem [] = refl
trim_start_idem (c ∷ s) = elim (Bool-cases (c == b' ')) [
  | inl space ↦ rw space (trim_start_idem s)
  | inr other ↦ rw (other, other) refl
]

module _ (wide : ℕ → ℕ) (above_one : Text → Bool) (o : Options) (l : Layout) where
  results_page-HasNoQuery :
      (section : String) (i : ℕ)
      → HasNoQuery o.results_path
      → HasNoQuery o.extension
      → HasNoQuery (codes section)
      → HasNoQuery (results_page wide above_one o section (some i))
  results_page-HasNoQuery section i path extension name = HasNoQuery-append o.results_path _ path (
    refl,
    HasNoQuery-append (codes section) _ name (
      refl,
      HasNoQuery-append (to_hex i) o.extension (radix_digits-HasNoQuery (suc i) i [] tt) extension,
    ),
  )

  word_of_page :
      (section : String) (value : Text) (i : ℕ)
      → HasNoQuery o.results_path
      → HasNoQuery o.extension
      → HasNoQuery (codes section)
      → IsUtf16 value
      → search_word [] (location_search (page_with_search wide above_one o section value (some i)))
        ≡ value
  unfolding search_word drop
  word_of_page section value i path extension name units =
      ap (search_word []) (
        location_search-append (results_page wide above_one o section (some i)) (escape value)
          (results_page-HasNoQuery section i path extension name))
      ∙ unescape-escape value units

  opened_window :
      (b : SearchBox)
      → ((open_results_window wide above_one o l b).results_location ≡ b.results_location)
        × ((open_results_window wide above_one o l b).results_window.display ≡ codes "block")
  opened_window b = elim (Bool-cases (text_eq b.results_window.display (codes "block"))) [
    | inl shown ↦ rw shown (refl, (text_eq_iff b.results_window.display (codes "block")).0 shown)
    | inr hidden ↦ elim (Bool-cases o.inside_frame) [
      | inl inside ↦ rw (hidden, inside) (refl, refl)
      | inr outside ↦ rw (hidden, outside) (refl, refl)
    ]
  ]

  -- handed
  pub handed_over :
      (b : SearchBox) (content section : String) (i : ℕ)
      → HasNoQuery o.results_path
      → HasNoQuery o.extension
      → IsUtf16 b.field_value
      → get_elem? index_sections_with_content b.search_index ≡ some content
      → get_elem? index_section_names b.search_index ≡ some section
      → index_of (index_char wide above_one (trim_start b.field_value)) (codes content) ≡ some i
      → (c : SearchBox) × (perform_search wide above_one o l b ≡ some c)
        × (search_word [] (location_search c.results_location) ≡ trim_start b.field_value)
        × (c.last_results_page ≡ results_page wide above_one o section (some i))
        × (c.results_window.display ≡ codes "block")
  unfolding perform_search
  handed_over b content section i path extension units has_content has_section has_page =
      let value = trim_start b.field_value in
      let name =
        NamesHaveNoQuery-get_elem? index_section_names b.search_index section
          index_section_names-HasNoQuery has_section in
      let loading : SearchBox = record b {
        key_timeout = 0;
        results_location = page_with_search wide above_one o section value (some i);
      } in
      (
        go_to_page wide above_one o l section value (some i) b,
        rw (has_content, has_section, ◌>>=◌, has_page) refl,
        ap (λ (url : Text). search_word [] (location_search url)) (opened_window loading).0
            ∙ word_of_page section value i path extension name
                (trim_start-IsUtf16 b.field_value units),
        refl,
        (opened_window loading).1,
      )

  -- Where the search panel's path and extension hold no question mark, its field a text of 16-bit
  -- units, its section is one of the index and the word's first character begins a name of that
  -- section: Search of SearchBox ends and loads a page, and on a results page that createResults
  -- made of any entries, Search of SearchResults, which reads the word from that URL, shows each
  -- row that is named after its symbol as the index names them, if the symbol's name begins with
  -- the word, in any case and with spaces around the word left off.
  pub typed_prefix_shown :
      (b : SearchBox) (content section : String) (k : ℕ) (es : List SearchEntry) (i : ℕ)
      (x : SearchEntry) (rest : Text)
      → HasNoQuery o.results_path
      → HasNoQuery o.extension
      → IsUtf16 b.field_value
      → get_elem? index_sections_with_content b.search_index ≡ some content
      → get_elem? index_section_names b.search_index ≡ some section
      → index_of (index_char wide above_one (trim_start b.field_value)) (codes content) ≡ some k
      → get_elem? es i ≡ some x
      → is_indexed wide x ≡ true
      → to_lower_case wide (trim_end (trim_start b.field_value)) ++ rest
        ≡ to_lower_case wide (codes (name_of x))
      → (c : SearchBox) × (perform_search wide above_one o l b ≡ some c)
        × (c.last_results_page ≡ results_page wide above_one o section (some k))
        × (c.results_window.display ≡ codes "block")
        × (get_elem?
              (row_displays
                (search_results wide [] (location_search c.results_location) (loaded_page es)))
              i
            ≡ some (codes "block"))
  typed_prefix_shown b content section k es i x rest path extension units has_content has_section
        has_page entry_of indexed typed =
      let (c, searched, word, page, window) =
        handed_over b content section k path extension units has_content has_section has_page in
      let url : Text = location_search c.results_location in
      let shown : is_shown wide (search_id wide (search_word [] url)) x ≡ true =
        shown_of_prefix wide x (search_word [] url) rest indexed (
          ap (λ (v : Text). to_lower_case wide (trim_end (trim_start v)) ++ rest) word
          ∙ ap (λ (v : Text). to_lower_case wide (trim_end v) ++ rest)
              (trim_start_idem b.field_value)
          ∙ typed) in
      (
        c,
        searched,
        page,
        window,
        ap (λ (ds : List Text). get_elem? ds i) (search_results-loaded wide es [] url).0
            ∙ get_elem?-map (shown_display wide (search_id wide (search_word [] url))) es i x
                entry_of
            ∙ ap (λ (b : Bool). some (if b then codes "block" else codes "none")) shown,
      )
