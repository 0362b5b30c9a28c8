-- ===== src/Docs/Dom.antt =====
-- The part of a browser's document that the scripts build and read: elements with attributes, a
-- text and a display style, in a tree.
use Prim.Native.String.{String}
use text.Mathlib.Text as T
use riscv_simulator_pipeline.Base.{List, [], ◌∷◌, if◌then◌else◌}
use riscv_simulator_pipeline.Docs.Text.{Text}

-- `node_name` is in capitals, as the document of an HTML page has it.
pub record Element : Type 0 where
  pub node_name : String
  pub attributes : List (String × Text)
  pub inner_html : Text
  pub display : Text

mutual
  pub data Node : Type 0 where
    node : Element → Nodes → Node

  pub data Nodes : Type 0 where
    nil : Nodes
    cons : Node → Nodes → Nodes

-- An attribute that is not set reads as the empty text.
unfoldable pub get_attribute : String → List (String × Text) → Text
get_attribute name [] = []
get_attribute name ((n, v) ∷ rest) = if T.◌==◌ n name then v else get_attribute name rest

unfoldable pub put_attribute : String → Text → List (String × Text) → List (String × Text)
put_attribute name v [] = (name, v) ∷ []
put_attribute name v ((n, w) ∷ rest) =
    if T.◌==◌ n name then (n, v) ∷ rest else (n, w) ∷ put_attribute name v rest

-- `element.className` and `element.id`
abbrev pub class_name : Element → Text
class_name e = get_attribute "class" e.attributes

abbrev pub id_of : Element → Text
id_of e = get_attribute "id" e.attributes

-- `document.createElement(name)`
abbrev pub create_element : String → Node
create_element name =
    node (record { node_name = name; attributes = []; inner_html = []; display = [] }) nil

-- `node.setAttribute(name, value)`
abbrev pub set_attribute : String → Text → Node → Node
set_attribute name v (node e children) =
    node (record e { attributes = put_attribute name v e.attributes }) children

-- `node.innerHTML = text`, of a text without elements.
abbrev pub set_inner_html : Text → Node → Node
set_inner_html t (node e children) = node (record e { inner_html = t }) children

abbrev pub append_node : Nodes → Node → Nodes
append_node nil c = cons c nil
append_node (cons n ns) c = cons n (append_node ns c)

-- `node.appendChild(child)`
abbrev pub append_child : Node → Node → Node
append_child child (node e children) = node e (append_node children child)
