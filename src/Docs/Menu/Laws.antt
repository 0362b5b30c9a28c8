-- ===== src/Docs/Menu/Laws.antt =====
-- The links of a menu's HTML are those of its data.
use mathlib.Core.List.{◌++◌, append_assoc, append-nil}
use riscv_simulator_pipeline.Base.{
  ℕ, Bool, true, false, ◌&&◌, List, [], ◌∷◌, ◌==◌, ◌≡◌, refl, ap, ◌∙◌, sym, and_parts, not, arith,
}
use riscv_simulator_pipeline.Docs.Text.{Text, codes}
use riscv_simulator_pipeline.Docs.Menu.{make_items, make_item, make_tree}
use riscv_simulator_pipeline.Docs.Menu.Tree.{Menu, leaf, branch, Items, nil, ◌▸◌}
use riscv_simulator_pipeline.Docs.Menu.Data.{menudata}

-- A reader of the values in quotes of an HTML text: outside of one, or in one of which it has read
-- a part.
unfoldable mutual
  pub values_outside : Text → List Text
  values_outside [] = []
  values_outside (c ∷ s) = elim (c == b'"') [ true ↦ values_in [] s | false ↦ values_outside s ]

  pub values_in : Text → Text → List Text
  values_in value [] = []
  values_in value (c ∷ s) = elim (c == b'"') [
    | true ↦ value ∷ values_outside s
    | false ↦ values_in (value ++ (c ∷ [])) s
  ]

abbrev pub has_no_quote : Text → Bool
has_no_quote [] = true
has_no_quote (c ∷ s) = not (c == b'"') && has_no_quote s

no_quote : (c : ℕ) (s : Text) → has_no_quote (c ∷ s) ≡ true → (c == b'"') ≡ false
no_quote c s h = ground (arith, (and_parts (not (c == b'"')) (has_no_quote s) h).0)

no_quotes : (c : ℕ) (s : Text) → has_no_quote (c ∷ s) ≡ true → has_no_quote s ≡ true
no_quotes c s h = (and_parts (not (c == b'"')) (has_no_quote s) h).1

values_outside-append :
    (s t : Text) → has_no_quote s ≡ true → values_outside (s ++ t) ≡ values_outside t
unfolding values_outside
values_outside-append [] t h = refl
values_outside-append (c ∷ s) t h =
    rw (no_quote c s h, values_outside) (values_outside-append s t (no_quotes c s h))

values_in-append :
    (v s t : Text)
    → has_no_quote s ≡ true
    → values_in v (s ++ (b'"' ∷ t)) ≡ (v ++ s) ∷ values_outside t
unfolding values_in
values_in-append v [] t h = rw (append-nil v) refl
values_in-append v (c ∷ s) t h =
    rw (no_quote c s h, values_in)
      (values_in-append (v ++ (c ∷ [])) s t (no_quotes c s h)
        ∙ ap (λ (w : Text). w ∷ values_outside t) (append_assoc v (c ∷ []) s))

-- The texts and the URLs of a menu without quotes.
unfoldable mutual
  pub is_plain_menu : Menu → Bool
  is_plain_menu (leaf text url) = has_no_quote (codes text) && has_no_quote (codes url)
  is_plain_menu (branch text url ms) =
      (has_no_quote (codes text) && has_no_quote (codes url)) && are_plain ms

  pub are_plain : Items → Bool
  are_plain nil = true
  are_plain (m ▸ ms) = is_plain_menu m && are_plain ms

-- The links of a menu, each entry before those below it.
unfoldable mutual
  pub links : Text → Items → List Text
  links rel_path nil = []
  links rel_path (m ▸ ms) = item_links rel_path m ++ links rel_path ms

  pub item_links : Text → Menu → List Text
  item_links rel_path (leaf text url) = (rel_path ++ codes url) ∷ []
  item_links rel_path (branch text url ms) = (rel_path ++ codes url) ∷ links rel_path ms

has_no_quote-append :
    (s t : Text) → has_no_quote s ≡ true → has_no_quote t ≡ true → has_no_quote (s ++ t) ≡ true
has_no_quote-append [] t h k = k
has_no_quote-append (c ∷ s) t h k =
    rw (no_quote c s h, has_no_quote-append s t (no_quotes c s h) k) refl

-- One link in front of a text and what follows.
link_value :
    (rel_path url text rest : Text)
    → has_no_quote rel_path ≡ true
    → has_no_quote url ≡ true
    → has_no_quote text ≡ true
    → values_in [] (rel_path ++ (url ++ (b'"' ∷ b'>' ∷ (text ++ rest))))
      ≡ (rel_path ++ url) ∷ values_outside rest
unfolding values_outside
link_value rel_path url text rest r u t =
    ap (values_in []) (sym (append_assoc rel_path url (b'"' ∷ b'>' ∷ (text ++ rest))))
    ∙ values_in-append [] (rel_path ++ url) (b'>' ∷ (text ++ rest))
        (has_no_quote-append rel_path url r u)
    ∙ ap (λ (vs : List Text). (rel_path ++ url) ∷ vs) (values_outside-append text rest t)

regroup :
    (rel_path url text tail rest : Text)
    → (rel_path ++ (url ++ (b'"' ∷ b'>' ∷ (text ++ tail)))) ++ rest
      ≡ rel_path ++ (url ++ (b'"' ∷ b'>' ∷ (text ++ (tail ++ rest))))
regroup rel_path url text tail rest = simp append_assoc

mutual
  unfolding make_items is_plain_menu links values_outside

  values-make_items :
      (rel_path rest : Text) (ms : Items)
      → has_no_quote rel_path ≡ true
      → are_plain ms ≡ true
      → values_outside (make_items rel_path ms ++ rest) ≡ links rel_path ms ++ values_outside rest
  values-make_items rel_path rest nil r h = refl
  values-make_items rel_path rest (m ▸ ms) r h =
      let (plain, others) = and_parts (is_plain_menu m) (are_plain ms) h in
      ap values_outside (append_assoc (make_item rel_path m) (make_items rel_path ms) rest)
      ∙ values-make_item rel_path (make_items rel_path ms ++ rest) m r plain
      ∙ ap (λ (vs : List Text). item_links rel_path m ++ vs)
          (values-make_items rel_path rest ms r others)
      ∙ sym (append_assoc (item_links rel_path m) (links rel_path ms) (values_outside rest))

  values-make_item :
      (rel_path rest : Text) (m : Menu)
      → has_no_quote rel_path ≡ true
      → is_plain_menu m ≡ true
      → values_outside (make_item rel_path m ++ rest) ≡ item_links rel_path m ++ values_outside rest
  values-make_item rel_path rest (leaf text url) r h =
      let (t, u) = and_parts (has_no_quote (codes text)) (has_no_quote (codes url)) h in
      ap (values_in []) (regroup rel_path (codes url) (codes text) (codes "</a></li>") rest)
      ∙ link_value rel_path (codes url) (codes text) (codes "</a></li>" ++ rest) r u t
  values-make_item rel_path rest (branch text url ms) r h =
      let (own, below) =
        and_parts (has_no_quote (codes text) && has_no_quote (codes url)) (are_plain ms) h in
      let (t, u) = and_parts (has_no_quote (codes text)) (has_no_quote (codes url)) own in
      let list : Text = make_items rel_path ms in
      let tail : Text = codes "</a><ul>" ++ (list ++ codes "</ul></li>") in
      ap (values_in []) (regroup rel_path (codes url) (codes text) tail rest)
      ∙ link_value rel_path (codes url) (codes text) (tail ++ rest) r u t
      ∙ ap (λ (vs : List Text). (rel_path ++ codes url) ∷ vs)
          (ap values_outside (append_assoc list (codes "</ul></li>") rest)
            ∙ values-make_items rel_path (codes "</ul></li>" ++ rest) ms r below)

-- links
pub values_outside-make_tree :
    (rel_path : Text) (ms : Items)
    → has_no_quote rel_path ≡ true
    → are_plain ms ≡ true
    → values_outside (make_tree rel_path ms) ≡ links rel_path ms
unfolding make_tree values_outside
values_outside-make_tree rel_path ms r h =
    values-make_items rel_path (codes "</ul>") ms r h ∙ append-nil (links rel_path ms)

menudata-plain : are_plain menudata ≡ true
unfolding are_plain
menudata-plain = refl

-- Read back from the HTML that makeTree writes for menudata, for a path without quotes, the
-- values in quotes are the menu's links: the path in front of the URL of each entry, the entry
-- before those below it, in order.
pub values_outside-menudata :
    (rel_path : Text)
    → has_no_quote rel_path ≡ true
    → values_outside (make_tree rel_path menudata) ≡ links rel_path menudata
values_outside-menudata rel_path r = values_outside-make_tree rel_path menudata r menudata-plain
