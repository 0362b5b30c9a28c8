-- ===== src/Docs/Search/Create.antt =====
-- docs/html/search/search.js, createResults and its helpers: the rows of a results page, from the
-- page's part of the search index. The source appends some elements before it has set all their
-- attributes; here an element is appended when it is complete.
use Prim.Native.String.{String}
use mathlib.Core.List.{◌++◌}
use riscv_simulator_pipeline.Base.{ℕ, zero, suc, List, [], ◌∷◌}
use riscv_simulator_pipeline.Docs.Text.{Text, codes, to_decimal}
use riscv_simulator_pipeline.Docs.Dom.{
  Node, create_element, set_attribute, set_inner_html, append_child,
}
use riscv_simulator_pipeline.Docs.Search.Entry.{SearchEntry, symbol, SearchHit, hit}

unfoldable pub set_key_actions : Node → Text → Node
set_key_actions elem action =
    set_attribute "onkeyup" action
      (set_attribute "onkeypress" action (set_attribute "onkeydown" action elem))

unfoldable pub set_class_attr : Node → Text → Node
set_class_attr elem attr = set_attribute "className" attr (set_attribute "class" attr elem)

-- `if (…[1]) srLink.setAttribute('target','_parent')`
abbrev set_target : ℕ → Node → Node
set_target zero elem = elem
set_target (suc n) elem = set_attribute "target" (codes "_parent") elem

-- `'Item'+e`
abbrev pub item_id : ℕ → Text
item_id e = codes "Item" ++ to_decimal e

-- `'Item'+e+'_c'+c`
abbrev pub child_item_id : ℕ → ℕ → Text
child_item_id e c = item_id e ++ (codes "_c" ++ to_decimal c)

-- `'SR_'+id`
abbrev pub row_id : String → Text
row_id id = codes "SR_" ++ codes id

-- The link of the entry number `e`.
unfoldable pub symbol_link : ℕ → String → Node
unfolding set_key_actions set_class_attr
symbol_link e name = set_inner_html (codes name) (
    set_class_attr
      (set_key_actions (set_attribute "id" (item_id e) (create_element "A"))
        (codes "return searchResults.Nav(event," ++ (to_decimal e ++ codes ")")))
      (codes "SRSymbol"))

unfoldable pub scope_span : String → Node
unfolding set_class_attr
scope_span scope =
    set_inner_html (codes scope) (set_class_attr (create_element "SPAN") (codes "SRScope"))

-- The link of place number `c` of the entry number `e`.
unfoldable pub child_link : ℕ → ℕ → SearchHit → Node
unfolding set_key_actions set_class_attr
child_link e c (hit url in_parent scope) = set_inner_html (codes scope) (
    set_target in_parent (
      set_attribute "href" (codes url) (
        set_class_attr
          (set_key_actions (set_attribute "id" (child_item_id e c) (create_element "A")) (
            codes "return searchResults.NavChild(event,"
            ++ (to_decimal e ++ (codes "," ++ (to_decimal c ++ codes ")")))))
          (codes "SRScope"))))

-- `for (var c=0; c<searchData[e][1].length-1; c++)`, from `c` on.
unfoldable pub add_children : ℕ → ℕ → List SearchHit → Node → Node
unfolding child_link
add_children e c [] children = children
add_children e c (h ∷ hits) children =
    add_children e (suc c) hits (append_child (child_link e c h) children)

-- The div `srEntry`: with one place the link leads there, with more it opens their list.
unfoldable pub entry_div : ℕ → SearchEntry → Node
unfolding symbol_link scope_span set_class_attr
entry_div e (symbol id name (hit url in_parent scope ∷ [])) =
    let link = set_target in_parent (set_attribute "href" (codes url) (symbol_link e name)) in
    append_child (scope_span scope)
      (append_child link (set_class_attr (create_element "DIV") (codes "SREntry")))
entry_div e (symbol id name hits) =
    let link =
      set_attribute "href"
        (codes "javascript:searchResults.Toggle(\"" ++ (row_id id ++ codes "\")"))
        (symbol_link e name) in
    let children =
      add_children e 0 hits (set_class_attr (create_element "DIV") (codes "SRChildren")) in
    append_child children
      (append_child link (set_class_attr (create_element "DIV") (codes "SREntry")))

-- The div `srResult` of the entry number `e`.
unfoldable pub result_row : ℕ → SearchEntry → Node
unfolding entry_div set_class_attr
result_row e (symbol id name hits) =
    append_child (entry_div e (symbol id name hits))
      (set_class_attr (set_attribute "id" (row_id id) (create_element "DIV")) (codes "SRResult"))

-- The loop over `searchData`, from the entry number `e` on, into the element `SRResults`.
unfoldable pub add_results : ℕ → List SearchEntry → Node → Node
unfolding result_row
add_results e [] results = results
add_results e (x ∷ search_data) results =
    add_results (suc e) search_data (append_child (result_row e x) results)

unfoldable pub create_results : List SearchEntry → Node → Node
unfolding add_results
create_results search_data results = add_results 0 search_data results
