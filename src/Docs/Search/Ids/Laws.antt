-- ===== src/Docs/Search/Ids/Laws.antt =====
-- convertToId loses nothing: what it makes of a text can be decoded again.
use mathlib.Core.List.{◌++◌, append_assoc}
use riscv_simulator_pipeline.Base.{
  ℕ, ◌+◌, ◌-◌, ◌*◌, ◌/◌, ◌%◌, ◌<◌, true, false, [], ◌∷◌, ◌≡◌, refl, ap, ◌∙◌, sym, ◌==◌, Bool-cases,
  inl, inr, ltb, if◌then◌else◌, arith,
}
use riscv_simulator_pipeline.Docs.Text.{Text, digit, to_hex}
use riscv_simulator_pipeline.Docs.Text.Laws.{to_hex_two}
use riscv_simulator_pipeline.Docs.Search.Ids.{is_id_unit, id_unit, convert_to_id}

-- The value of a hexadecimal digit in lower case.
digit_value : ℕ → ℕ
digit_value c = if ltb c b'a' then c - b'0' else c - 87

digit_value-digit : (d : ℕ) → d < 16 → digit_value (digit d) ≡ d
unfolding digit_value digit
digit_value-digit d h = ground arith

coded-lt : (c : ℕ) → is_id_unit c ≡ false → c < 256
unfolding is_id_unit
coded-lt c h = ground (arith, h)

plain-ne : (c : ℕ) → is_id_unit c ≡ true → (c == b'_') ≡ false
unfolding is_id_unit
plain-ne c h = ground (arith, h)

id_unit_plain : (c : ℕ) → is_id_unit c ≡ true → id_unit c ≡ c ∷ []
unfolding id_unit
id_unit_plain c h = rw h refl

-- The text that an id stands for: `_` and two hexadecimal digits are one code unit.
pub decode_id : Text → Text
unfolding digit_value
decode_id [] = []
decode_id (c ∷ []) = c ∷ []
decode_id (c ∷ d ∷ []) = c ∷ decode_id (d ∷ [])
decode_id (c ∷ d ∷ e ∷ s) =
    let coded = (digit_value d * 16 + digit_value e) ∷ decode_id s in
    let plain = c ∷ decode_id (d ∷ e ∷ s) in if c == b'_' then coded else plain

-- A code unit that is coded is below 128, and becomes `_` and its two digits.
id_unit_coded :
    (c : ℕ) → is_id_unit c ≡ false → id_unit c ≡ b'_' ∷ digit (c / 16) ∷ digit (c % 16) ∷ []
unfolding id_unit digit
id_unit_coded c h = elim (Bool-cases (ltb c 16)) [
  | inl low ↦
      let high_digit : c / 16 ≡ 0 = ground (arith, low) in
      let low_digit : c % 16 ≡ c = ground (arith, low) in
      ground (arith, h, low, high_digit, low_digit)
  | inr high ↦
      let digits : to_hex c ≡ digit (c / 16) ∷ digit (c % 16) ∷ [] =
        to_hex_two c (ground (arith, high)) (coded-lt c h) in
      ground (arith, h, high, digits)
]

decode_plain : (c : ℕ) (s : Text) → (c == b'_') ≡ false → decode_id (c ∷ s) ≡ c ∷ decode_id s
unfolding decode_id
decode_plain c [] h = refl
decode_plain c (d ∷ []) h = refl
decode_plain c (d ∷ e ∷ s) h = rw h refl

decode_coded :
    (c : ℕ) (s : Text)
    → c < 256
    → decode_id (b'_' ∷ digit (c / 16) ∷ digit (c % 16) ∷ s) ≡ c ∷ decode_id s
unfolding decode_id
decode_coded c s h =
    rw (digit_value-digit (c / 16) (omega arith), digit_value-digit (c % 16) (omega arith))
      (ap (λ (d : ℕ). d ∷ decode_id s) (omega arith))

-- The id that convertToId makes of a text can be decoded to that text, so different texts have
-- different ids.
pub decode_id-convert_to_id : (s : Text) → decode_id (convert_to_id s) ≡ s
unfolding convert_to_id
decode_id-convert_to_id [] = unfold decode_id in refl
decode_id-convert_to_id (c ∷ s) = elim (Bool-cases (is_id_unit c)) [
  | inl plain ↦ rw (id_unit_plain c plain) (
      decode_plain c (convert_to_id s) (plain-ne c plain)
      ∙ ap (λ (t : Text). c ∷ t) (decode_id-convert_to_id s))
  | inr coded ↦ rw (id_unit_coded c coded) (
      decode_coded c (convert_to_id s) (coded-lt c coded)
      ∙ ap (λ (t : Text). c ∷ t) (decode_id-convert_to_id s))
]

pub convert_to_id-append :
    (s t : Text) → convert_to_id (s ++ t) ≡ convert_to_id s ++ convert_to_id t
unfolding convert_to_id
convert_to_id-append [] t = refl
convert_to_id-append (c ∷ s) t =
    rw (convert_to_id-append s t)
      (sym (append_assoc (id_unit c) (convert_to_id s) (convert_to_id t)))
