-- ===== src/Docs/Search/Results/Neighbours.antt =====
-- NavNext and NavPrev find the nearest visible row, and end.
use mathlib.Core.Option
use mathlib.Core.Option.{some-injective}
use mathlib.Core.Path.{subst}
use riscv_simulator_pipeline.Base.{
  ℕ, zero, suc, ◌+◌, ◌<◌, ◌≤◌, true, false, Option, none, some, ◌≡◌, refl, inl, inr, Bool-cases,
  ==_iff, ltb, ◌==◌, arith, ap, [], ◌∷◌, get_elem?,
}
use riscv_simulator_pipeline.Docs.Text.{Text, codes}
use riscv_simulator_pipeline.Docs.Text.Laws.{text_eq_iff}
use riscv_simulator_pipeline.Docs.Dom.{Node, node}
use riscv_simulator_pipeline.Docs.Search.Create.{item_id}
use riscv_simulator_pipeline.Docs.Search.Results.{ResultsPage}
use riscv_simulator_pipeline.Docs.Search.Results.Ancestors.{IsChain, get_element-IsChain}
use riscv_simulator_pipeline.Docs.Search.Results.Nav.{
  Found, get_element, is_visible, nav_next, nav_prev,
}

-- The page has the items below `n`, and no item number `n`.
pub record HasItems (page : ResultsPage) (n : ℕ) : Type 0 where
  pub items : (k : ℕ) → k < n → (at : Found) × (get_element (item_id k) page ≡ some at)
  pub last : get_element (item_id n) page ≡ none

display_of : Node → Text
display_of (node e children) = e.display

-- The display of the parent's parent.
row_display : Found → Option Text
row_display (n, above) = Option.map (λ (row : Node). display_of row) (get_elem? above 1)

-- The link of the item number `k`, below its row, which is not shown.
pub IsHidden : ResultsPage → ℕ → Type 0
IsHidden page k =
    (at : Found) × (get_element (item_id k) page ≡ some at)
    × IsChain at.0 at.1
    × ¬ (row_display at ≡ some (codes "block"))

pub IsShownItem : ResultsPage → ℕ → Found → Type 0
IsShownItem page k at =
    (get_element (item_id k) page ≡ some at)
    × IsChain at.0 at.1
    × (row_display at ≡ some (codes "block"))

IsShownItem-visible :
    (page : ResultsPage) (k : ℕ) (at : Found)
    → get_element (item_id k) page ≡ some at
    → is_visible at ≡ true
    → IsShownItem page k at
unfolding IsShownItem row_display display_of
IsShownItem-visible page k (n, []) found h = cc
IsShownItem-visible page k (n, p ∷ []) found h = cc
IsShownItem-visible page k (n, p ∷ node e children ∷ above) found h = (
  found,
  get_element-IsChain (item_id k) page n (p ∷ node e children ∷ above) found,
  ap some ((text_eq_iff e.display (codes "block")).0 h),
)

IsHidden-invisible :
    (page : ResultsPage) (k : ℕ) (at : Found)
    → get_element (item_id k) page ≡ some at
    → is_visible at ≡ false
    → IsHidden page k
unfolding IsHidden row_display display_of
IsHidden-invisible page k (n, []) found h =
    ((n, []), found, get_element-IsChain (item_id k) page n [] found, λ e. cc)
IsHidden-invisible page k (n, p ∷ []) found h =
    ((n, p ∷ []), found, get_element-IsChain (item_id k) page n (p ∷ []) found, λ e. cc)
IsHidden-invisible page k (n, p ∷ node e children ∷ above) found h = (
  (n, p ∷ node e children ∷ above),
  found,
  get_element-IsChain (item_id k) page n (p ∷ node e children ∷ above) found,
  λ shown. let block = (text_eq_iff e.display (codes "block")).1 (some-injective _ _ shown) in cc,
)

-- The first item from `index` on that is visible, or none of them.
abbrev pub IsNext : ResultsPage → ℕ → ℕ → Option Found → Type 0
IsNext page n index none = (j : ℕ) → index ≤ j → j < n → IsHidden page j
IsNext page n index (some at) =
    (k : ℕ) × (index ≤ k)
    × (k < n)
    × IsShownItem page k at
    × ((j : ℕ) → index ≤ j → j < k → IsHidden page j)

IsHidden-from :
    (page : ResultsPage) (index j : ℕ)
    → IsHidden page index
    → (index + 1 ≤ j → IsHidden page j)
    → index ≤ j
    → IsHidden page j
IsHidden-from page index j here later h = elim (Bool-cases (index == j)) [
  | inl same ↦ subst (IsHidden page) ((==_iff index j).0 same) here
  | inr other ↦ later (ground (arith, other))
]

IsNext-extend :
    (page : ResultsPage) (n index : ℕ) (r : Option Found)
    → IsHidden page index
    → IsNext page n (index + 1) r
    → IsNext page n index r
IsNext-extend page n index none here later =
    λ j h k. IsHidden-from page index j here (λ g. later j g k) h
IsNext-extend page n index (some at) here (k, low, high, shown, before) =
    (k, omega arith, high, shown, λ j h g. IsHidden-from page index j here (λ i. before j i g) h)

-- On a page with the items below some number and none at it, NavNext from an item up to that
-- number ends, within one turn more than there are items from there on, with the first item from
-- there on whose parent's parent has the display block, or with none if there is no such item.
pub nav_next_lem :
    (fuel : ℕ) (page : ResultsPage) (n index : ℕ)
    → HasItems page n
    → index ≤ n
    → n < index + fuel
    → (r : Option Found) × (nav_next fuel page index ≡ some r) × IsNext page n index r
unfolding nav_next
nav_next_lem zero page n index v h k = absurd (omega arith)
nav_next_lem (suc fuel) page n index v h k = elim (Bool-cases (ltb index n)) [
  | inr past ↦
      let at_end : n ≡ index = ground (arith, past) in
      let missing : get_element (item_id index) page ≡ none =
        subst (λ (m : ℕ). get_element (item_id m) page ≡ none) at_end v.last in
      (none, rw (missing, nav_next) refl, λ j g i. absurd (omega arith))
  | inl inside ↦
      let (at, found) = v.items index (ground (arith, inside)) in
      elim (Bool-cases (is_visible at)) [
        | inl visible ↦ (
          some at,
          rw (found, nav_next, visible) refl,
          (
            index,
            omega arith,
            ground (arith, inside),
            IsShownItem-visible page index at found visible,
            λ j g i. absurd (omega arith),
          ),
        )
        | inr hidden ↦
            let (r, result, first) =
              nav_next_lem fuel page n (index + 1) v (ground (arith, inside)) (omega arith) in
            (
              r,
              rw (found, nav_next, hidden) result,
              IsNext-extend page n index r (IsHidden-invisible page index at found hidden) first,
            )
      ]
]

-- The last item before `index` that is visible, or none of them.
abbrev pub IsPrevious : ResultsPage → ℕ → Option Found → Type 0
IsPrevious page index none = (j : ℕ) → j < index → IsHidden page j
IsPrevious page index (some at) =
    (k : ℕ) × (k < index) × IsShownItem page k at × ((j : ℕ) → k < j → j < index → IsHidden page j)

IsPrevious-extend :
    (page : ResultsPage) (index : ℕ) (r : Option Found)
    → IsHidden page index
    → IsPrevious page index r
    → IsPrevious page (suc index) r
IsPrevious-extend page index none here earlier = λ j h. elim (Bool-cases (j == index)) [
  | inl same ↦ subst (IsHidden page) ((==_iff index j).0 (ground (arith, same))) here
  | inr other ↦ earlier j (ground (arith, other))
]
IsPrevious-extend page index (some at) here (k, low, shown, after) = (
  k,
  omega arith,
  shown,
  λ j g h. elim (Bool-cases (j == index)) [
    | inl same ↦ subst (IsHidden page) ((==_iff index j).0 (ground (arith, same))) here
    | inr other ↦ after j g (ground (arith, other))
  ],
)

-- NavPrev
pub nav_prev_lem :
    (page : ResultsPage) (n index : ℕ)
    → HasItems page n
    → index ≤ n
    → IsPrevious page index (nav_prev page index)
unfolding nav_prev
nav_prev_lem page n zero v h = λ j g. absurd (omega arith)
nav_prev_lem page n (suc index) v h =
    let (at, found) = v.items index (omega arith) in
    elim (Bool-cases (is_visible at)) [
      | inl visible ↦
          rw (found, nav_prev, visible)
            (
              index,
              omega arith,
              IsShownItem-visible page index at found visible,
              λ j g i. absurd (omega arith),
            )
      | inr hidden ↦
          rw (found, nav_prev, hidden)
            (IsPrevious-extend page index (nav_prev page index)
              (IsHidden-invisible page index at found hidden)
              (nav_prev_lem page n index v (omega arith)))
    ]
