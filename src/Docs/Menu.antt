-- ===== src/Docs/Menu.antt =====
-- docs/html/menu.js: the menu of the pages.
pub mod Tree
pub mod Data
pub mod Laws
use Prim.Native.String.{String}
use mathlib.Core.List.{◌++◌}
use riscv_simulator_pipeline.Base.{
  ℕ, Bool, true, false, List, [], ◌∷◌, Option, none, some, if◌then◌else◌,
}
use riscv_simulator_pipeline.Docs.Text.{Text, codes}
use riscv_simulator_pipeline.Docs.Menu.Tree.{Menu, leaf, branch, Items, nil, ◌▸◌}

-- The inner function of initMenu, on the entries of `data.children`; an entry with `children` of
-- its own has their list behind its link.
unfoldable mutual
  pub make_items : Text → Items → Text
  make_items rel_path nil = []
  make_items rel_path (m ▸ ms) = make_item rel_path m ++ make_items rel_path ms

  pub make_item : Text → Menu → Text
  make_item rel_path (leaf text url) =
      codes "<li><a href=\""
      ++ (rel_path ++ (codes url ++ (codes "\">" ++ (codes text ++ codes "</a></li>"))))
  make_item rel_path (branch text url ms) =
      codes "<li><a href=\""
      ++ (rel_path
          ++ (codes url
              ++ (codes "\">"
                  ++ (codes text
                      ++ (codes "</a><ul>" ++ (make_items rel_path ms ++ codes "</ul></li>"))))))

-- makeTree on an object with `children`.
unfoldable pub make_tree : Text → Items → Text
unfolding make_items
make_tree rel_path ms = codes "<ul>" ++ (make_items rel_path ms ++ codes "</ul>")

-- What initMenu does to the page: the list in `#main-nav`, its class and id, the item that it adds
-- to the list, and whether the list becomes a menu of the SmartMenus plugin.
pub record MenuBar : Type 0 where
  pub html : Text
  pub class_added : Text
  pub id : Text
  pub search_item : Option Text
  pub smart : Bool

server_item : Text → Text → Text → Text
server_item rel_path search_page search =
    codes
      "<li style=\"float:right\"><div id=\"MSearchBox\" class=\"MSearchBoxInactive\"><div class=\"left\"><form id=\"FSearchBox\" action=\""
    ++ (rel_path
        ++ (search_page
            ++ (codes "\" method=\"get\"><img id=\"MSearchSelect\" src=\""
                ++ (rel_path
                    ++ (codes
                          "search/mag.svg\" alt=\"\"/><input type=\"text\" id=\"MSearchField\" name=\"query\" value=\""
                        ++ (search
                            ++ codes
                                "\" size=\"20\" accesskey=\"S\" onfocus=\"searchBox.OnSearchFieldFocus(true)\" onblur=\"searchBox.OnSearchFieldFocus(false)\"></form></div><div class=\"right\"></div></div></li>"))))))

client_item : Text → Text → Text
client_item rel_path search =
    codes
      "<li style=\"float:right\"><div id=\"MSearchBox\" class=\"MSearchBoxInactive\"><span class=\"left\"><img id=\"MSearchSelect\" src=\""
    ++ (rel_path
        ++ (codes
              "search/mag_sel.svg\" onmouseover=\"return searchBox.OnSearchSelectShow()\" onmouseout=\"return searchBox.OnSearchSelectHide()\" alt=\"\"/><input type=\"text\" id=\"MSearchField\" value=\""
            ++ (search
                ++ (codes
                      "\" accesskey=\"S\" onfocus=\"searchBox.OnSearchFieldFocus(true)\" onblur=\"searchBox.OnSearchFieldFocus(false)\" onkeyup=\"searchBox.OnSearchFieldChange(event)\"/></span><span class=\"right\"><a id=\"MSearchClose\" href=\"javascript:searchBox.CloseResultsWindow()\"><img id=\"MSearchCloseImg\" border=\"0\" src=\""
                    ++ (rel_path ++ codes "search/close.svg\" alt=\"\"/></a></span></div></li>")))))

unfoldable pub init_menu : Items → Text → Bool → Bool → Text → Text → MenuBar
unfolding make_tree server_item client_item
init_menu menudata rel_path search_enabled server_side search_page search = record {
  html = make_tree rel_path menudata;
  class_added = codes "sm sm-dox";
  id = codes "main-menu";
  search_item =
      if search_enabled
      then some (
          if server_side
          then server_item rel_path search_page search
          else client_item rel_path search)
      else none;
  smart = true;
}
