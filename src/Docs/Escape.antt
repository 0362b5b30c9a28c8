-- ===== src/Docs/Escape.antt =====
-- JavaScript's `escape` and `unescape`, by which the search panel hands the searched word to the
-- results page in a URL.
pub mod Laws
use mathlib.Core.Option
use mathlib.Core.List.{◌++◌}
use riscv_simulator_pipeline.Base.{
  ℕ, zero, suc, ◌+◌, ◌-◌, ◌*◌, ◌/◌, ◌%◌, Bool, ◌&&◌, ◌||◌, List, [], ◌∷◌, Option, none, some, ltb,
  leb, ◌==◌, if◌then◌else◌,
}
use riscv_simulator_pipeline.Docs.Text.{Text, codes}

-- The letters, the digits and `@*_+-./`.
unfoldable pub is_plain : ℕ → Bool
is_plain c =
    leb b'a' c && leb c b'z'
    || leb b'A' c && leb c b'Z'
    || leb b'-' c && leb c b'9'
    || c == b'@'
    || c == b'*'
    || c == b'_'
    || c == b'+'

-- A hexadecimal digit in upper case, as `escape` writes it.
unfoldable pub upper_digit : ℕ → ℕ
upper_digit d = if ltb d 10 then b'0' + d else d + 55

-- `%XX`, or `%uXXXX` past Latin-1.
unfoldable pub escape_unit : ℕ → Text
unfolding is_plain upper_digit
escape_unit c =
    if is_plain c
    then c ∷ []
    else if ltb c 256
    then b'%' ∷ upper_digit (c / 16) ∷ upper_digit (c % 16) ∷ []
    else b'%'
      ∷ b'u'
      ∷ upper_digit (c / 4096)
      ∷ upper_digit (c / 256 % 16)
      ∷ upper_digit (c / 16 % 16)
      ∷ upper_digit (c % 16)
      ∷ []

unfoldable pub escape : Text → Text
unfolding escape_unit
escape [] = []
escape (c ∷ s) = escape_unit c ++ escape s

-- The value of a hexadecimal digit of either case; `none` for what is none.
unfoldable pub hex_value : ℕ → Option ℕ
hex_value c =
    if leb b'0' c && leb c b'9'
    then some (c - b'0')
    else if leb b'A' c && leb c b'F'
    then some (c - 55)
    else if leb b'a' c && leb c b'f'
    then some (c - 87)
    else none

-- The unit of two digits, and of four.
unfoldable pub hex_pair : ℕ → ℕ → Option ℕ
unfolding hex_value
hex_pair a b = elim (hex_value a) [
  | none ↦ none
  | some x ↦ elim (hex_value b) [ none ↦ none | some y ↦ some (x * 16 + y) ]
]

unfoldable pub hex_quad : ℕ → ℕ → ℕ → ℕ → Option ℕ
unfolding hex_pair
hex_quad a b c d = elim (hex_pair a b) [
  | none ↦ none
  | some x ↦ elim (hex_pair c d) [ none ↦ none | some y ↦ some (x * 256 + y) ]
]

-- The code behind a `%`: the unit that it stands for, and how long it is.
unfoldable pub code_behind : Text → Option (ℕ × ℕ)
unfolding hex_pair hex_quad
code_behind (u ∷ a ∷ b ∷ c ∷ d ∷ s) =
    if u == b'u'
    then Option.map (λ (n : ℕ). (n, 5)) (hex_quad a b c d)
    else Option.map (λ (n : ℕ). (n, 2)) (hex_pair u a)
code_behind (a ∷ b ∷ s) = Option.map (λ (n : ℕ). (n, 2)) (hex_pair a b)
code_behind _ = none

-- From a text whose first `skip` units belong to a code that is read. A `%` with no code behind it
-- stands for itself.
unfoldable pub unescape_from : ℕ → Text → Text
unfolding code_behind
unescape_from skip [] = []
unescape_from (suc skip) (c ∷ s) = unescape_from skip s
unescape_from zero (c ∷ s) = elim (if c == b'%' then code_behind s else none) [
  | none ↦ c ∷ unescape_from zero s
  | some (n, size) ↦ n ∷ unescape_from size s
]

unfoldable pub unescape : Text → Text
unfolding unescape_from
unescape s = unescape_from 0 s
