-- ===== src/Docs/Search/Results.antt =====
-- docs/html/search/search.js, SearchResults: the search among the rows of a results page.
pub mod Rows
pub mod Finds
pub mod Walk
pub mod FirstPlaces
pub mod Nav
pub mod Ancestors
pub mod Neighbours
pub mod Target
pub mod Changed
pub mod Toggled
use text.Mathlib.Text as T
use riscv_simulator_pipeline.Base.{
  ℕ, zero, suc, ◌+◌, Bool, true, false, ◌&&◌, List, [], ◌∷◌, ltb, leb, ◌==◌, if◌then◌else◌, length,
}
use riscv_simulator_pipeline.Docs.Text.{
  Text, codes, text_eq, take, drop, to_lower_case, trim_start, trim_end,
}
use riscv_simulator_pipeline.Docs.Escape.{unescape}
use riscv_simulator_pipeline.Docs.Dom.{
  Element, Node, node, Nodes, nil, cons, get_attribute, class_name, id_of,
}
use riscv_simulator_pipeline.Docs.Search.Ids.{convert_to_id}

-- The results page: the rows, the display of its two status lines, and the fields of the object.
pub record ResultsPage : Type 0 where
  pub rows : Nodes
  pub searching : Text
  pub no_matches : Text
  pub last_match_count : ℕ
  pub last_key : ℕ
  pub repeat_on : Bool

-- `rowMatchName.replace(/^sr\d*_/, '')`: after `sr`, digits up to a `_`, or the whole name.
unfoldable pub after_number : Text → Text → Text
after_number name [] = name
after_number name (c ∷ rest) =
    let more = after_number name rest in
    if c == b'_' then rest else if leb b'0' c && leb c b'9' then more else name

unfoldable pub strip_row_prefix : Text → Text
unfolding after_number
strip_row_prefix (c ∷ d ∷ rest) =
    if c == b's' && d == b'r' then after_number (c ∷ d ∷ rest) rest else c ∷ d ∷ rest
strip_row_prefix name = name

-- `search.length<=name.length && name.substr(0, search.length)==search`
abbrev pub is_match : Text → Text → Bool
is_match search name =
    leb (length search) (length name) && text_eq (take (length search) name) search

-- The word that is searched: the argument, or else the one of the URL's query.
unfoldable pub search_word : Text → Text → Text
search_word [] location_search = unescape (drop 1 location_search)
search_word (c ∷ search) location_search = c ∷ search

module _ (wide : ℕ → ℕ) where
  abbrev pub row_match_name : Element → Text
  row_match_name row = strip_row_prefix (to_lower_case wide (id_of row))

  -- One turn of the loop on `row`.
  unfoldable pub show_row : Text → Element → ℕ → Element × ℕ
  unfolding strip_row_prefix
  show_row search row matches =
      if text_eq (class_name row) (codes "SRResult")
      then (if is_match search (row_match_name row)
          then (record row { display = codes "block" }, matches + 1)
          else (record row { display = codes "none" }, matches))
      else (row, matches)

  -- `document.getElementsByTagName("div")` holds every div in the order of the document.
  abbrev visit : Text → Element → ℕ → Element × ℕ
  visit search e matches =
      if T.◌==◌ e.node_name "DIV" then show_row search e matches else (e, matches)

  unfoldable mutual
    pub search_node : Text → Node → ℕ → Node × ℕ
    search_node search (node e children) matches =
        let (e', found) = visit search e matches in
        let (children', total) = search_nodes search children found in (node e' children', total)

    pub search_nodes : Text → Nodes → ℕ → Nodes × ℕ
    search_nodes search nil matches = (nil, matches)
    search_nodes search (cons n ns) matches =
        let (n', found) = search_node search n matches in
        let (ns', total) = search_nodes search ns found in (cons n' ns', total)

  abbrev pub search_id : Text → Text
  search_id word = convert_to_id (to_lower_case wide (trim_end (trim_start word)))

  -- Search of SearchResults.
  unfoldable pub search_results : Text → Text → ResultsPage → ResultsPage
  unfolding search_word
  search_results search location_search page =
      let word = search_id (search_word search location_search) in
      let (rows, matches) = search_nodes word page.rows 0 in
      record page {
        rows = rows;
        searching = codes "none";
        no_matches = if matches == 0 then codes "block" else codes "none";
        last_match_count = matches;
      }
