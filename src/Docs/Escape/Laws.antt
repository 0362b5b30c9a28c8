-- ===== src/Docs/Escape/Laws.antt =====
-- What `escape` writes, `unescape` reads back.
use mathlib.Core.List.{◌++◌}
use riscv_simulator_pipeline.Base.{
  ℕ, ◌+◌, ◌*◌, ◌/◌, ◌%◌, ◌<◌, true, false, [], ◌∷◌, some, ltb, ◌==◌, ◌≡◌, refl, ap, ◌∙◌, Bool-cases,
  inl, inr, arith,
}
use riscv_simulator_pipeline.Docs.Text.{Text}
use riscv_simulator_pipeline.Docs.Escape.{
  is_plain, upper_digit, escape_unit, escape, hex_value, hex_pair, hex_quad, code_behind,
  unescape_from, unescape,
}

-- Code units of 16 bits.
abbrev pub IsUtf16 : Text → Type 0
IsUtf16 [] = Unit
IsUtf16 (c ∷ s) = (c < 65536) × IsUtf16 s

hex_value-upper_digit : (d : ℕ) → d < 16 → hex_value (upper_digit d) ≡ some d
unfolding hex_value upper_digit
hex_value-upper_digit d h = ground arith

hex_pair-upper_digit :
    (x y : ℕ) → x < 16 → y < 16 → hex_pair (upper_digit x) (upper_digit y) ≡ some (x * 16 + y)
unfolding hex_pair
hex_pair-upper_digit x y h k =
    rw (hex_value-upper_digit x h, hex_value-upper_digit y k, hex_pair) refl

upper_digit-ne_u : (d : ℕ) → d < 16 → (upper_digit d == b'u') ≡ false
unfolding upper_digit
upper_digit-ne_u d h = ground arith

code_behind_pair :
    (x y : ℕ) (s : Text)
    → x < 16
    → y < 16
    → code_behind (upper_digit x ∷ upper_digit y ∷ s) ≡ some (x * 16 + y, 2)
unfolding code_behind
code_behind_pair x y [] h k = rw (hex_pair-upper_digit x y h k) refl
code_behind_pair x y (a ∷ []) h k = rw (hex_pair-upper_digit x y h k) refl
code_behind_pair x y (a ∷ b ∷ []) h k = rw (hex_pair-upper_digit x y h k) refl
code_behind_pair x y (a ∷ b ∷ c ∷ s) h k =
    rw (upper_digit-ne_u x h, hex_pair-upper_digit x y h k) refl

code_behind_quad :
    (x y z w : ℕ) (s : Text)
    → x < 16
    → y < 16
    → z < 16
    → w < 16
    → code_behind (b'u' ∷ upper_digit x ∷ upper_digit y ∷ upper_digit z ∷ upper_digit w ∷ s)
      ≡ some ((x * 16 + y) * 256 + (z * 16 + w), 5)
unfolding code_behind hex_quad
code_behind_quad x y z w s hx hy hz hw =
    rw (hex_pair-upper_digit x y hx hy, hex_pair-upper_digit z w hz hw, hex_quad) refl

unescape_plain :
    (c : ℕ) (s : Text) → is_plain c ≡ true → unescape_from 0 (c ∷ s) ≡ c ∷ unescape_from 0 s
unfolding unescape_from is_plain
unescape_plain c s h =
    let differs : (c == b'%') ≡ false = ground (arith, h) in rw (differs, unescape_from) refl

escape_unit_plain : (c : ℕ) → is_plain c ≡ true → escape_unit c ≡ c ∷ []
unfolding escape_unit
escape_unit_plain c plain = rw plain refl

escape_unit_pair :
    (c : ℕ)
    → is_plain c ≡ false
    → ltb c 256 ≡ true
    → escape_unit c ≡ b'%' ∷ upper_digit (c / 16) ∷ upper_digit (c % 16) ∷ []
unfolding escape_unit
escape_unit_pair c coded low = rw (coded, low) refl

escape_unit_quad :
    (c : ℕ)
    → is_plain c ≡ false
    → ltb c 256 ≡ false
    → escape_unit c
      ≡ b'%'
        ∷ b'u'
        ∷ upper_digit (c / 4096)
        ∷ upper_digit (c / 256 % 16)
        ∷ upper_digit (c / 16 % 16)
        ∷ upper_digit (c % 16)
        ∷ []
unfolding escape_unit
escape_unit_quad c coded high = rw (coded, high) refl

unescape_pair :
    (c : ℕ) (s : Text)
    → c < 256
    → unescape_from 0 (b'%' ∷ upper_digit (c / 16) ∷ upper_digit (c % 16) ∷ s)
      ≡ c ∷ unescape_from 0 s
unfolding unescape_from
unescape_pair c s h =
    rw (code_behind_pair (c / 16) (c % 16) s (omega arith) (omega arith), unescape_from)
      (ap (λ (d : ℕ). d ∷ unescape_from 0 s) (omega arith))

unescape_quad :
    (c : ℕ) (s : Text)
    → c < 65536
    → unescape_from 0 (
        b'%'
        ∷ b'u'
        ∷ upper_digit (c / 4096)
        ∷ upper_digit (c / 256 % 16)
        ∷ upper_digit (c / 16 % 16)
        ∷ upper_digit (c % 16)
        ∷ s)
      ≡ c ∷ unescape_from 0 s
unfolding unescape_from
unescape_quad c s h =
    rw
      (
        code_behind_quad (c / 4096) (c / 256 % 16) (c / 16 % 16) (c % 16) s (omega arith)
            (omega arith) (omega arith) (omega arith),
        unescape_from,
      )
      (ap (λ (d : ℕ). d ∷ unescape_from 0 s) (omega arith))

-- What `escape` makes of one unit is read back as that unit.
unescape-escape_unit :
    (c : ℕ) (s : Text) → c < 65536 → unescape_from 0 (escape_unit c ++ s) ≡ c ∷ unescape_from 0 s
unescape-escape_unit c s h = elim (Bool-cases (is_plain c)) [
  | inl plain ↦ rw (escape_unit_plain c plain) (unescape_plain c s plain)
  | inr coded ↦ elim (Bool-cases (ltb c 256)) [
    | inl low ↦ rw (escape_unit_pair c coded low) (unescape_pair c s (ground (arith, low)))
    | inr high ↦ rw (escape_unit_quad c coded high) (unescape_quad c s h)
  ]
]

pub unescape-escape : (s : Text) → IsUtf16 s → unescape (escape s) ≡ s
unfolding unescape escape
unescape-escape [] h = unfold unescape_from in refl
unescape-escape (c ∷ s) h =
    unescape-escape_unit c (escape s) h.0 ∙ ap (λ (t : Text). c ∷ t) (unescape-escape s h.1)
