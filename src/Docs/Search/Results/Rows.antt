-- ===== src/Docs/Search/Results/Rows.antt =====
-- The search on the rows that createResults makes: which are shown, and how many match.
use mathlib.Core.List.{map}
use riscv_simulator_pipeline.Base.{
  ℕ, zero, suc, ◌+◌, Bool, List, [], ◌∷◌, ◌≡◌, refl, ap, ◌∙◌, sym, Bool-cases, inl, inr,
  if◌then◌else◌, arith,
}
use Prim.Native.String.{String}
use riscv_simulator_pipeline.Docs.Text.{Text, codes, text_eq, to_lower_case, lower_unit, begins}
use riscv_simulator_pipeline.Docs.Text.Laws.{take_eq-begins}
use riscv_simulator_pipeline.Docs.Dom.{
  Element, Node, node, Nodes, nil, cons, get_attribute, put_attribute, append_node,
}
use riscv_simulator_pipeline.Docs.Search.Entry.{SearchEntry, symbol, SearchHit, hit}
use riscv_simulator_pipeline.Docs.Search.Create.{
  add_children, child_link, entry_div, result_row, add_results, row_id,
}
use riscv_simulator_pipeline.Docs.Search.Results.{
  show_row, search_node, search_nodes, is_match, strip_row_prefix,
}

-- The rows of the entries from number `e` on.
unfoldable pub rows_from : ℕ → List SearchEntry → Nodes
rows_from e [] = nil
rows_from e (x ∷ es) = cons (result_row e x) (rows_from (suc e) es)

unfoldable pub append_nodes : Nodes → Nodes → Nodes
append_nodes nil ms = ms
append_nodes (cons n ns) ms = cons n (append_nodes ns ms)

append-append_node :
    (ns : Nodes) (n : Node) (ms : Nodes)
    → append_nodes (append_node ns n) ms ≡ append_nodes ns (cons n ms)
unfolding append_nodes
append-append_node nil n ms = refl
append-append_node (cons m ns) n ms = ap (cons m) (append-append_node ns n ms)

append-nil : (ns : Nodes) → append_nodes ns nil ≡ ns
unfolding append_nodes
append-nil nil = refl
append-nil (cons n ns) = ap (cons n) (append-nil ns)

-- createResults puts one row for each entry behind what the element holds.
pub add_results_lem :
    (k : ℕ) (es : List SearchEntry) (e : Element) (ns : Nodes)
    → add_results k es (node e ns) ≡ node e (append_nodes ns (rows_from k es))
unfolding add_results rows_from
add_results_lem k [] e ns = ap (node e) (sym (append-nil ns))
add_results_lem k (x ∷ es) e ns =
    add_results_lem (suc k) es e (append_node ns (result_row k x))
    ∙ ap (node e) (append-append_node ns (result_row k x) (rows_from (suc k) es))

-- The links of the places from number `c` on.
links_from : ℕ → ℕ → List SearchHit → Nodes
links_from e c [] = nil
links_from e c (h ∷ hits) = cons (child_link e c h) (links_from e (suc c) hits)

add_children_lem :
    (e c : ℕ) (hits : List SearchHit) (f : Element) (ns : Nodes)
    → add_children e c hits (node f ns) ≡ node f (append_nodes ns (links_from e c hits))
unfolding add_children links_from
add_children_lem e c [] f ns = ap (node f) (sym (append-nil ns))
add_children_lem e c (h ∷ hits) f ns =
    add_children_lem e (suc c) hits f (append_node ns (child_link e c h))
    ∙ ap (node f) (append-append_node ns (child_link e c h) (links_from e (suc c) hits))

display_of : Node → Text
display_of (node e children) = e.display

-- The displays of the nodes, in order.
unfoldable pub displays : Nodes → List Text
unfolding display_of
displays nil = []
displays (cons n ns) = display_of n ∷ displays ns

-- The element of a list of places.
abbrev children_element : Element
children_element = record {
  node_name = "DIV";
  attributes =
      put_attribute "className" (codes "SRChildren")
        (put_attribute "class" (codes "SRChildren") []);
  inner_html = [];
  display = [];
}

module _ (wide : ℕ → ℕ) where
  -- A node that the search passes over, with all that stands below it.
  abbrev IsQuiet : Node → Type 0
  IsQuiet n = (word : Text) (matches : ℕ) → search_node wide word n matches ≡ (n, matches)

  child_link-IsQuiet : (e c : ℕ) (h : SearchHit) → IsQuiet (child_link e c h)
  unfolding child_link search_node
  child_link-IsQuiet e c (hit url zero scope) word matches = refl
  child_link-IsQuiet e c (hit url (suc k) scope) word matches = refl

  links_from-IsQuiet :
      (e c : ℕ) (hits : List SearchHit) (word : Text) (matches : ℕ)
      → search_nodes wide word (links_from e c hits) matches ≡ (links_from e c hits, matches)
  unfolding links_from search_nodes
  links_from-IsQuiet e c [] word matches = refl
  links_from-IsQuiet e c (h ∷ hits) word matches =
      rw (child_link-IsQuiet e c h word matches, links_from-IsQuiet e (suc c) hits word matches)
        refl

  children_div-IsQuiet :
      (e : ℕ) (hits : List SearchHit) → IsQuiet (add_children e 0 hits (node children_element nil))
  unfolding search_node append_nodes show_row get_attribute put_attribute text_eq
  children_div-IsQuiet e hits word matches = rw (add_children_lem e 0 hits children_element nil) (
      ap (λ (r : Nodes × ℕ). (node children_element r.0, r.1))
        (links_from-IsQuiet e 0 hits word matches))

  entry_div-IsQuiet : (e : ℕ) (x : SearchEntry) → IsQuiet (entry_div e x)
  unfolding entry_div search_node append_nodes show_row get_attribute put_attribute text_eq
  entry_div-IsQuiet e (symbol id name []) word matches = unfold add_children in refl
  entry_div-IsQuiet e (symbol id name (hit url zero scope ∷ [])) word matches = refl
  entry_div-IsQuiet e (symbol id name (hit url (suc k) scope ∷ [])) word matches = refl
  entry_div-IsQuiet e (symbol id name (hit url p scope ∷ i ∷ hits)) word matches =
      rw (children_div-IsQuiet e (hit url p scope ∷ i ∷ hits) word matches) refl

  -- What the search compares with the word: the id of the entry, without the prefix of the row.
  unprefixed :
      (id : String)
      → strip_row_prefix (to_lower_case wide (row_id id)) ≡ to_lower_case wide (codes id)
  unfolding strip_row_prefix to_lower_case lower_unit
  unprefixed id = refl

  -- Whether the id of the entry, in lower case, begins with the word.
  abbrev pub is_shown : Text → SearchEntry → Bool
  is_shown word (symbol id name hits) = begins word (to_lower_case wide (codes id))

  is_match-shown :
      (word : Text) (id : String) (name : String) (hits : List SearchHit)
      → is_match word (strip_row_prefix (to_lower_case wide (row_id id)))
        ≡ is_shown word (symbol id name hits)
  is_match-shown word id name hits =
      ap (is_match word) (unprefixed id) ∙ take_eq-begins word (to_lower_case wide (codes id))

  -- The display that the search gives to the row, and its share of the matches.
  abbrev pub shown_display : Text → SearchEntry → Text
  shown_display word x = if is_shown word x then codes "block" else codes "none"

  abbrev pub count_shown : Text → List SearchEntry → ℕ
  count_shown word [] = 0
  count_shown word (x ∷ es) = (if is_shown word x then 1 else 0) + count_shown word es

  search-result_row :
      (word : Text) (k : ℕ) (x : SearchEntry) (matches : ℕ)
      → (display_of (search_node wide word (result_row k x) matches).0 ≡ shown_display word x)
        × ((search_node wide word (result_row k x) matches).1
            ≡ matches + (if is_shown word x then 1 else 0))
  unfolding result_row search_node show_row get_attribute put_attribute text_eq display_of
  search-result_row word k (symbol id name hits) matches =
      let same = is_match-shown word id name hits in
      elim (Bool-cases (is_shown word (symbol id name hits))) [
        | inl shown ↦ rw (same, shown, entry_div-IsQuiet k (symbol id name hits) word) (refl, refl)
        | inr hidden ↦
            rw (same, hidden, entry_div-IsQuiet k (symbol id name hits) word) (refl, omega arith)
      ]

  pub search-rows_from :
      (word : Text) (k : ℕ) (es : List SearchEntry) (matches : ℕ)
      → (displays (search_nodes wide word (rows_from k es) matches).0 ≡ map (shown_display word) es)
        × ((search_nodes wide word (rows_from k es) matches).1 ≡ matches + count_shown word es)
  unfolding rows_from search_nodes displays
  search-rows_from word k [] matches = (refl, omega arith)
  search-rows_from word k (x ∷ es) matches =
      let (row, found) = search-result_row word k x matches in
      let total = (search_node wide word (result_row k x) matches).1 in
      let (rest, counted) = search-rows_from word (suc k) es total in
      (cc (row, rest), omega (arith, found, counted))
