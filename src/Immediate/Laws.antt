-- ===== src/Immediate/Laws.antt =====
-- The immediates of the instruction formats in arithmetic: which fields of the word they are made of.
use riscv_simulator_pipeline.Base.{ℕ, ◌+◌, ◌-◌, ◌*◌, ◌/◌, ◌%◌, ◌^◌, ◌<◌, ◌≡◌, ap, ◌∙◌, arith}
use riscv_simulator_pipeline.Base.{ltb, if◌then◌else◌}
use riscv_simulator_pipeline.Base.Bits.{bit_or_fields, bit_xor_high, bit_and_shifted, bit_and_ones}
use riscv_simulator_pipeline.Immediate.{sign_extend, i_imm, s_imm, b_imm, u_imm, j_imm}

-- The two's complement of `bits` bits, widened to 32.
abbrev pub widen : ℕ → ℕ → ℕ
widen value bits = if ltb value (2 ^ (bits - 1)) then value else value + 2 ^ 32 - 2 ^ bits

sign_extend_12 : (value : ℕ) → value < 2 ^ 12 → sign_extend value 12 ≡ widen value 12
unfolding sign_extend
sign_extend_12 value h = ground (arith, bit_xor_high 11 value h)

sign_extend_13 : (value : ℕ) → value < 2 ^ 13 → sign_extend value 13 ≡ widen value 13
unfolding sign_extend
sign_extend_13 value h = ground (arith, bit_xor_high 12 value h)

sign_extend_21 : (value : ℕ) → value < 2 ^ 21 → sign_extend value 21 ≡ widen value 21
unfolding sign_extend
sign_extend_21 value h = ground (arith, bit_xor_high 20 value h)

pub i_imm_lem : (w : ℕ) → i_imm w ≡ widen (w / 2 ^ 20 % 2 ^ 12) 12
unfolding i_imm
i_imm_lem w = sign_extend_12 (w / 2 ^ 20 % 2 ^ 12) (omega arith)

-- The fields of the formats S, B and J, put together; the last two without their last bit, 0.
abbrev pub s_field : ℕ → ℕ
s_field w = w / 2 ^ 25 % 2 ^ 7 * 2 ^ 5 + w / 2 ^ 7 % 2 ^ 5

abbrev pub b_field : ℕ → ℕ
b_field w =
    w / 2 ^ 31 % 2 * 2 ^ 11
    + (w / 2 ^ 7 % 2 * 2 ^ 10 + (w / 2 ^ 25 % 2 ^ 6 * 2 ^ 4 + w / 2 ^ 8 % 2 ^ 4))

abbrev pub j_field : ℕ → ℕ
j_field w =
    w / 2 ^ 31 % 2 * 2 ^ 19
    + (w / 2 ^ 12 % 2 ^ 8 * 2 ^ 11 + (w / 2 ^ 20 % 2 * 2 ^ 10 + w / 2 ^ 21 % 2 ^ 10))

pub s_imm_lem : (w : ℕ) → s_imm w ≡ widen (s_field w) 12
unfolding s_imm
s_imm_lem w =
    ap (λ (v : ℕ). sign_extend v 12)
      (bit_or_fields 5 (w / 2 ^ 25 % 2 ^ 7) (w / 2 ^ 7 % 2 ^ 5) (omega arith))
    ∙ sign_extend_12 _ (omega arith)

pub b_imm_lem : (w : ℕ) → b_imm w ≡ widen (b_field w * 2) 13
unfolding b_imm
b_imm_lem w =
    let even : b_field w * 2 % 2 ^ 32 ≡ b_field w * 2 = omega arith in
    rw
      (
        bit_or_fields 4 (w / 2 ^ 25 % 2 ^ 6) (w / 2 ^ 8 % 2 ^ 4) (omega arith),
        bit_or_fields 10 (w / 2 ^ 7 % 2) (w / 2 ^ 25 % 2 ^ 6 * 2 ^ 4 + w / 2 ^ 8 % 2 ^ 4)
            (omega arith),
        bit_or_fields 11 (w / 2 ^ 31 % 2)
            (w / 2 ^ 7 % 2 * 2 ^ 10 + (w / 2 ^ 25 % 2 ^ 6 * 2 ^ 4 + w / 2 ^ 8 % 2 ^ 4))
            (omega arith),
        even,
      )
      (sign_extend_13 (b_field w * 2) (omega arith))

pub j_imm_lem : (w : ℕ) → j_imm w ≡ widen (j_field w * 2) 21
unfolding j_imm
j_imm_lem w =
    let even : j_field w * 2 % 2 ^ 32 ≡ j_field w * 2 = omega arith in
    rw
      (
        bit_or_fields 10 (w / 2 ^ 20 % 2) (w / 2 ^ 21 % 2 ^ 10) (omega arith),
        bit_or_fields 11 (w / 2 ^ 12 % 2 ^ 8) (w / 2 ^ 20 % 2 * 2 ^ 10 + w / 2 ^ 21 % 2 ^ 10)
            (omega arith),
        bit_or_fields 19 (w / 2 ^ 31 % 2)
            (w / 2 ^ 12 % 2 ^ 8 * 2 ^ 11 + (w / 2 ^ 20 % 2 * 2 ^ 10 + w / 2 ^ 21 % 2 ^ 10))
            (omega arith),
        even,
      )
      (sign_extend_21 (j_field w * 2) (omega arith))

pub u_imm_lem : (w : ℕ) → w < 2 ^ 32 → u_imm w ≡ w / 2 ^ 12
unfolding u_imm
u_imm_lem w h = ground (arith, bit_and_shifted 12 w 0xfffff, bit_and_ones 20 (w / 2 ^ 12))
