-- ===== src/Docs/Search/Results/Finds.antt =====
-- The search page from the index to its rows: what Search shows after createResults, and that a
-- symbol is found by the beginning of its name.
use Prim.Native.String.{String}
use mathlib.Core.List.{◌++◌, map, append_assoc}
use riscv_simulator_pipeline.Base.{
  ℕ, Bool, true, false, ◌&&◌, List, [], ◌≡◌, refl, ap, ◌∙◌, sym, ◌==◌, and_parts, length,
  if◌then◌else◌, arith,
}
use riscv_simulator_pipeline.Docs.Text.{
  Text, codes, text_eq, drop, to_lower_case, begins, trim_start, trim_end,
}
use riscv_simulator_pipeline.Docs.Text.Laws.{text_eq_iff, begins-append, begins-append_true}
use riscv_simulator_pipeline.Docs.Dom.{
  Element, Node, node, Nodes, nil, cons, create_element, set_attribute, put_attribute,
  get_attribute,
}
use riscv_simulator_pipeline.Docs.Search.Entry.{SearchEntry, symbol, SearchHit, name_of}
use riscv_simulator_pipeline.Docs.Search.Ids.{convert_to_id}
use riscv_simulator_pipeline.Docs.Search.Ids.Laws.{convert_to_id-append}
use riscv_simulator_pipeline.Docs.Search.Create.{create_results}
use riscv_simulator_pipeline.Docs.Search.Results.Rows
use riscv_simulator_pipeline.Docs.Search.Results.{
  ResultsPage, search_nodes, search_results, search_word, search_id, show_row,
}
use riscv_simulator_pipeline.Docs.Search.Results.Rows.{
  is_shown, shown_display, count_shown, search-rows_from, rows_from, append_nodes, add_results_lem,
}

-- The element `SRResults`.
abbrev results_element : Element
results_element = record {
  node_name = "DIV";
  attributes = put_attribute "id" (codes "SRResults") [];
  inner_html = [];
  display = [];
}

-- A results page as it is loaded: the rows of its part of the index in the element `SRResults`.
abbrev pub loaded_page : List SearchEntry → ResultsPage
loaded_page es = record {
  rows =
      cons (create_results es (set_attribute "id" (codes "SRResults") (create_element "DIV"))) nil;
  searching = codes "block";
  no_matches = codes "none";
  last_match_count = 0;
  last_key = 0;
  repeat_on = false;
}

abbrev first_children : Nodes → Nodes
first_children nil = nil
first_children (cons (node e children) ns) = children

-- The displays of the rows in `SRResults`.
abbrev pub row_displays : ResultsPage → List Text
row_displays page = Rows.displays (first_children page.rows)

module _ (wide : ℕ → ℕ) where
  -- The index names an entry by the id of its name and a number, in lower case.
  abbrev pub is_indexed : SearchEntry → Bool
  is_indexed (symbol id name hits) =
      begins (convert_to_id (to_lower_case wide (codes name)) ++ codes "_") (codes id)
      && text_eq (to_lower_case wide (codes id)) (codes id)

  -- The rest of an entry's id behind the id of its name.
  id_rest : SearchEntry → Text
  id_rest (symbol id name hits) =
      drop (length (convert_to_id (to_lower_case wide (codes name)) ++ codes "_")) (codes id)

  match_name :
      (id name : String) (hits : List SearchHit)
      → is_indexed (symbol id name hits) ≡ true
      → to_lower_case wide (codes id)
        ≡ convert_to_id (to_lower_case wide (codes name))
          ++ (codes "_" ++ id_rest (symbol id name hits))
  unfolding id_rest
  match_name id name hits h =
      let parts = and_parts _ _ h in
      (text_eq_iff _ _).0 parts.1
      ∙ sym (begins-append _ (codes id) parts.0)
      ∙ append_assoc (convert_to_id (to_lower_case wide (codes name))) (codes "_") _

  -- A row is shown for every word that its name begins with, in any case.
  pub shown_of_prefix :
      (x : SearchEntry) (s rest : Text)
      → is_indexed x ≡ true
      → to_lower_case wide (trim_end (trim_start s)) ++ rest
        ≡ to_lower_case wide (codes (name_of x))
      → is_shown wide (search_id wide s) x ≡ true
  shown_of_prefix (symbol id name hits) s rest h e =
      let word = to_lower_case wide (trim_end (trim_start s)) in
      let name_id : convert_to_id (to_lower_case wide (codes name))
          ≡ convert_to_id word ++ convert_to_id rest =
        ap convert_to_id (sym e) ∙ convert_to_id-append word rest in
      let tail : Text = codes "_" ++ id_rest (symbol id name hits) in
      ap (begins (convert_to_id word)) (
        match_name id name hits h
        ∙ ap (λ (t : Text). t ++ tail) name_id
        ∙ append_assoc (convert_to_id word) (convert_to_id rest) tail)
      ∙ begins-append_true (convert_to_id word) (convert_to_id rest ++ tail)

  search-loaded :
      (word : Text) (es : List SearchEntry)
      → search_nodes wide word (loaded_page es).rows 0 ≡ (
        cons (node results_element (search_nodes wide word (rows_from 0 es) 0).0) nil,
        (search_nodes wide word (rows_from 0 es) 0).1,
      )
  unfolding search_nodes create_results show_row get_attribute put_attribute text_eq append_nodes
  search-loaded word es =
      ap (λ (n : Node). search_nodes wide word (cons n nil) 0)
        (add_results_lem 0 es results_element nil)

  -- On a page that createResults made, Search of SearchResults shows the row of each entry
  -- exactly if the entry's id, in lower case, begins with the id of the word, which is trimmed
  -- and put in lower case, and hides it if not; it counts the rows that it shows, hides the line
  -- that it is searching, and shows the line that nothing matches exactly if it shows no row.
  pub search_results-loaded :
      (es : List SearchEntry) (s location : Text)
      → let page = search_results wide s location (loaded_page es) in
        let word =
          convert_to_id (to_lower_case wide (trim_end (trim_start (search_word s location)))) in
        (row_displays page ≡ map (shown_display wide word) es)
        × (page.last_match_count ≡ count_shown wide word es)
        × (page.searching ≡ codes "none")
        × (page.no_matches
            ≡ (if count_shown wide word es == 0 then codes "block" else codes "none"))
  unfolding search_results create_results
  search_results-loaded es s location =
      let word = search_id wide (search_word s location) in
      let rows = search-loaded word es in
      let (shown, counted) = search-rows_from wide word 0 es 0 in
      let total : (search_nodes wide word (loaded_page es).rows 0).1 ≡ count_shown wide word es =
        ap (λ (r : Nodes × ℕ). r.1) rows ∙ counted ∙ omega arith in
      (
        ap (λ (r : Nodes × ℕ). Rows.displays (first_children r.0)) rows ∙ shown,
        total,
        refl,
        ap (λ (n : ℕ). if n == 0 then codes "block" else codes "none") total,
      )
