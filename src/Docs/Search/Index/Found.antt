-- ===== src/Docs/Search/Index/Found.antt =====
-- The modelled pages of the search index, and that the search panel leads to their symbols.
use Prim.Native.String.{String}
use mathlib.Core.Path.{subst}
use mathlib.Core.Option.{some-injective}
use mathlib.Core.List.{◌++◌}
use riscv_simulator_pipeline.Base.{
  ℕ, zero, suc, Bool, true, false, ◌&&◌, List, [], ◌∷◌, Option, none, some, ltb, leb, ◌==◌, ==_iff,
  get_elem?, and_parts, ◌≡◌, refl, ap, ◌∙◌, sym, Bool-cases, inl, inr, arith,
}
use riscv_simulator_pipeline.Docs.Text.{
  Text, codes, take, to_lower_case, lower_unit, trim_start, trim_end, append_trimmed, begins,
  index_of, text_eq, radix_digits, to_hex,
}
use riscv_simulator_pipeline.Docs.Escape.Laws.{IsUtf16}
use riscv_simulator_pipeline.Docs.Search.Entry.{SearchEntry, name_of}
use riscv_simulator_pipeline.Docs.Search.Ids.{convert_to_id, id_unit}
use riscv_simulator_pipeline.Docs.Search.Sections.{index_sections_with_content, index_section_names}
use riscv_simulator_pipeline.Docs.Search.Box.{Options, Layout, SearchBox}
use riscv_simulator_pipeline.Docs.Search.Box.Search.{index_char, perform_search}
use riscv_simulator_pipeline.Docs.Search.Results.{search_results}
use riscv_simulator_pipeline.Docs.Search.Results.Finds.{is_indexed, loaded_page, row_displays}
use riscv_simulator_pipeline.Docs.Search.HandOver.{HasNoQuery, location_search, typed_prefix_shown}
use riscv_simulator_pipeline.Docs.Search.Index.AllB.{all_b}
use riscv_simulator_pipeline.Docs.Search.Index.Enumvalues9.{enumvalues_9}
use riscv_simulator_pipeline.Docs.Search.Index.All11.{all_11}
use riscv_simulator_pipeline.Docs.Search.Index.All9.{all_9}

-- A page of the index: its section, its file, the number in the file's name, and its entries.
pub record IndexPage : Type 0 where
  pub section : ℕ
  pub section_name : String
  pub content : String
  pub number : ℕ
  pub entries : List SearchEntry

-- Everything with k, the enumerators with k, everything with r, and everything with i.
abbrev pub modelled_pages : List IndexPage
modelled_pages =
    (record {
      section = 0;
      section_name = "all";
      content = "_abcdefghijklmnoprstuvwz~";
      number = 0xb;
      entries = all_b;
    })
    ∷ (record {
      section = 7;
      section_name = "enumvalues";
      content = "abcdefgijklmnoprstuvw";
      number = 9;
      entries = enumvalues_9;
    })
    ∷ (record {
      section = 0;
      section_name = "all";
      content = "_abcdefghijklmnoprstuvwz~";
      number = 0x11;
      entries = all_11;
    })
    ∷ (record {
      section = 0;
      section_name = "all";
      content = "_abcdefghijklmnoprstuvwz~";
      number = 9;
      entries = all_9;
    })
    ∷ []

abbrev is_number : Option ℕ → ℕ → Bool
is_number none n = false
is_number (some i) n = i == n

is_number-some : (i : Option ℕ) (n : ℕ) → is_number i n ≡ true → i ≡ some n
is_number-some none n h = cc
is_number-some (some i) n h = ap some ((==_iff i n).0 h)

module _ (wide : ℕ → ℕ) where
  -- The first character of a name leads to the page of the number.
  abbrev leads_to : Text → String → ℕ → Bool
  leads_to [] content n = false
  leads_to (c ∷ name) content n = is_number (index_of (c ∷ []) (codes content)) n && ltb c 0xD800

  abbrev all_filed : String → ℕ → List SearchEntry → Bool
  all_filed content n [] = true
  all_filed content n (x ∷ es) =
      (is_indexed wide x && leads_to (to_lower_case wide (codes (name_of x))) content n)
      && all_filed content n es

  filed-get_elem? :
      (content : String) (n : ℕ) (es : List SearchEntry) (i : ℕ) (x : SearchEntry)
      → all_filed content n es ≡ true
      → get_elem? es i ≡ some x
      → (is_indexed wide x && leads_to (to_lower_case wide (codes (name_of x))) content n) ≡ true
  filed-get_elem? content n [] i x h e = cc
  filed-get_elem? content n (y ∷ es) zero x h e =
      subst
        (λ (z : SearchEntry).
          (is_indexed wide z && leads_to (to_lower_case wide (codes (name_of z))) content n) ≡ true)
        (some-injective y x e) (and_parts _ (all_filed content n es) h).0
  filed-get_elem? content n (y ∷ es) (suc i) x h e =
      filed-get_elem? content n es i x (and_parts _ (all_filed content n es) h).1 e

  -- The facts about a page that the search needs.
  record IsFiled (p : IndexPage) : Type 0 where
    content_of : get_elem? index_sections_with_content p.section ≡ some p.content
    name_of_section : get_elem? index_section_names p.section ≡ some p.section_name
    filed : all_filed p.content p.number p.entries ≡ true

  AllFiled : List IndexPage → Type 0
  AllFiled [] = Unit
  AllFiled (p ∷ ps) = IsFiled p × AllFiled ps

  modelled_pages-AllFiled : AllFiled modelled_pages
  unfolding AllFiled begins text_eq to_lower_case convert_to_id id_unit radix_digits index_of
  modelled_pages-AllFiled = (
    record { content_of = refl; name_of_section = refl; filed = refl },
    (
      record { content_of = refl; name_of_section = refl; filed = refl },
      (
        record { content_of = refl; name_of_section = refl; filed = refl },
        (record { content_of = refl; name_of_section = refl; filed = refl }, tt),
      ),
    ),
  )

  IsFiled-get_elem? :
      (ps : List IndexPage) (j : ℕ) (p : IndexPage)
      → AllFiled ps
      → get_elem? ps j ≡ some p
      → IsFiled p
  unfolding AllFiled
  IsFiled-get_elem? [] j p h e = cc
  IsFiled-get_elem? (q ∷ ps) zero p h e = subst IsFiled (some-injective q p e) h.0
  IsFiled-get_elem? (q ∷ ps) (suc j) p h e = IsFiled-get_elem? ps j p h.1 e

  -- The first unit of a text stays when spaces at its end are taken off.
  trim_end-head :
      (c : ℕ) (s : Text)
      → text_eq (trim_end (c ∷ s)) [] ≡ false
      → (t : Text) × (trim_end (c ∷ s) ≡ c ∷ t)
  unfolding trim_end text_eq
  trim_end-head c s h = go (trim_end s) h
    where
      go :
          (t : Text)
          → text_eq (append_trimmed c t) [] ≡ false
          → (u : Text) × (append_trimmed c t ≡ c ∷ u)
      go [] k = elim (Bool-cases (c == b' ')) [
        | inl space ↦ absurd (ground (arith, space, k))
        | inr other ↦ ([], rw other refl)
      ]
      go (d ∷ t) k = (d ∷ t, refl)

  index_char-of_prefix :
      (above_one : Text → Bool) (value rest name : Text) (content : String) (n : ℕ)
      → text_eq (trim_end value) [] ≡ false
      → to_lower_case wide (trim_end value) ++ rest ≡ name
      → leads_to name content n ≡ true
      → index_of (index_char wide above_one value) (codes content) ≡ some n
  unfolding index_char to_lower_case take
  index_char-of_prefix above_one [] rest name content n h typed leads =
      absurd (unfold trim_end in unfold text_eq in ground (arith, h))
  index_char-of_prefix above_one (c ∷ s) rest name content n h typed leads =
      let (t, head) = trim_end-head c s h in
      let first : lower_unit wide c ∷ (to_lower_case wide t ++ rest) ≡ name =
        sym (ap (λ (u : Text). to_lower_case wide u ++ rest) head) ∙ typed in
      let found = and_parts _ _ (ap (λ (u : Text). leads_to u content n) first ∙ leads) in
      let plain : leb 0xD800 (lower_unit wide c) ≡ false = ground (arith, found.1) in
      rw plain (is_number-some _ n found.0)

  module _ (above_one : Text → Bool) (o : Options) (l : Layout) where
    -- Every symbol of the four modelled pages of the index is found from the search panel by each
    -- non-empty beginning of its name, in any case and with spaces around it, in the section of
    -- its page, where the path and the extension of the panel hold no question mark and the field
    -- holds 16-bit units: Search of SearchBox ends, opens the results window and loads the page
    -- that the index files the symbol in, and on that page, made by createResults, Search of
    -- SearchResults, which reads the word from the URL, shows the row of the symbol.
    pub found_from_panel :
        (b : SearchBox) (j : ℕ) (p : IndexPage) (i : ℕ) (x : SearchEntry) (rest : Text)
        → HasNoQuery o.results_path
        → HasNoQuery o.extension
        → IsUtf16 b.field_value
        → get_elem? modelled_pages j ≡ some p
        → get_elem? p.entries i ≡ some x
        → b.search_index ≡ p.section
        → text_eq (trim_end (trim_start b.field_value)) [] ≡ false
        → to_lower_case wide (trim_end (trim_start b.field_value)) ++ rest
          ≡ to_lower_case wide (codes (name_of x))
        → (c : SearchBox) × (perform_search wide above_one o l b ≡ some c)
          × (c.last_results_page
              ≡ o.results_path
                ++ (codes "/"
                    ++ (codes p.section_name ++ (codes "_" ++ (to_hex p.number ++ o.extension)))))
          × (c.results_window.display ≡ codes "block")
          × (get_elem?
                (row_displays (
                  search_results wide []
                    (location_search c.results_location)
                    (loaded_page p.entries)))
                i
              ≡ some (codes "block"))
    found_from_panel b j p i x rest path extension units page_of entry_of section_of word typed =
        let facts = IsFiled-get_elem? modelled_pages j p modelled_pages-AllFiled page_of in
        let filed =
          and_parts _ _ (filed-get_elem? p.content p.number p.entries i x facts.filed entry_of) in
        typed_prefix_shown wide above_one o l b p.content p.section_name p.number p.entries i x rest
          path extension units
          (ap (get_elem? index_sections_with_content) section_of ∙ facts.content_of)
          (ap (get_elem? index_section_names) section_of ∙ facts.name_of_section)
          (index_char-of_prefix above_one (trim_start b.field_value) rest
            (to_lower_case wide (codes (name_of x))) p.content p.number word typed filed.1)
          entry_of filed.0 typed
