-- ===== src/Docs/Menu/Tree.antt =====
-- The shape of `menudata` of docs/html/menudata.js.
use Prim.Native.String.{String}

mutual
  -- An entry with its text and its URL; a branch has `children`.
  pub data Menu : Type 0 where
    leaf : String → String → Menu
    branch : String → String → Items → Menu

  pub data Items : Type 0 where
    nil : Items
    ◌▸◌ : Menu → Items → Items

infixr 67 ◌▸◌
