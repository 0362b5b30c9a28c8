-- ===== src/Docs/Text/Laws.antt =====
-- Laws of the strings.
use mathlib.Core.List.{◌++◌}
use riscv_simulator_pipeline.Base.{
  ℕ, zero, suc, lt→ltb, le→ltb, ◌/◌, ◌%◌, ◌<◌, ◌≤◌, true, [], ◌∷◌, ◌≡◌, refl, ap, ◌↔◌, length, leb,
  ◌&&◌, arith,
}
use riscv_simulator_pipeline.Docs.Text.{
  Text, text_eq, take, drop, lower_unit, to_lower_case, begins, to_hex, radix_digits, digit,
}

pub text_eq_iff : (s t : Text) → (text_eq s t ≡ true) ↔ (s ≡ t)
unfolding text_eq
text_eq_iff [] [] = (λ h. refl, λ h. refl)
text_eq_iff [] (d ∷ t) = (λ h. cc, λ h. cc)
text_eq_iff (c ∷ s) [] = (λ h. cc, λ h. cc)
text_eq_iff (c ∷ s) (d ∷ t) = ground (arith, text_eq_iff s t)

pub text_eq_refl : (s : Text) → text_eq s s ≡ true
text_eq_refl s = (text_eq_iff s s).1 refl

pub take-append : (s t : Text) → take (length s) (s ++ t) ≡ s
unfolding take
take-append [] t = refl
take-append (c ∷ s) t = ap (λ (r : Text). c ∷ r) (take-append s t)

pub to_lower_case-append :
    (wide : ℕ → ℕ) (s t : Text)
    → to_lower_case wide (s ++ t) ≡ to_lower_case wide s ++ to_lower_case wide t
unfolding to_lower_case
to_lower_case-append wide [] t = refl
to_lower_case-append wide (c ∷ s) t =
    ap (λ (r : Text). lower_unit wide c ∷ r) (to_lower_case-append wide s t)

-- Two hexadecimal digits.
pub to_hex_two : (c : ℕ) → 16 ≤ c → c < 256 → to_hex c ≡ digit (c / 16) ∷ digit (c % 16) ∷ []
unfolding radix_digits
to_hex_two zero h k = elim h [ ]
to_hex_two (suc c) h k =
    rw (le→ltb (suc c) 16 (omega arith), lt→ltb (suc c / 16) 16 (omega arith)) (ground arith)

pub to_hex_one : (c : ℕ) → c < 16 → to_hex c ≡ digit c ∷ []
unfolding radix_digits
to_hex_one c k = rw (lt→ltb c 16 k) refl

pub leb-length-append : (s t : Text) → leb (length s) (length (s ++ t)) ≡ true
leb-length-append [] t = ground arith
leb-length-append (c ∷ s) t = ground (arith, leb-length-append s t)

pub begins-append : (s t : Text) → begins s t ≡ true → s ++ drop (length s) t ≡ t
unfolding begins drop
begins-append [] t h = refl
begins-append (c ∷ s) [] h = cc
begins-append (c ∷ s) (d ∷ t) h = ground (arith, begins-append s t)

pub begins-append_true : (s t : Text) → begins s (s ++ t) ≡ true
unfolding begins
begins-append_true [] t = refl
begins-append_true (c ∷ s) t = ground (arith, begins-append_true s t)

-- Both ways to test that a text begins with another agree.
pub take_eq-begins :
    (s t : Text) → (leb (length s) (length t) && text_eq (take (length s) t) s) ≡ begins s t
unfolding take text_eq begins
take_eq-begins [] t = ground arith
take_eq-begins (c ∷ s) [] = ground arith
take_eq-begins (c ∷ s) (d ∷ t) = ground (arith, take_eq-begins s t)
