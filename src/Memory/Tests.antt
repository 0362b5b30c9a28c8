-- ===== src/Memory/Tests.antt =====
-- The memory on concrete values.
use riscv_simulator_pipeline.Base.{ℕ, ◌≡◌, refl, [], ◌∷◌, ◌==◌, if◌then◌else◌, ok, arith}
use riscv_simulator_pipeline.Memory.{
  Memory, write, read_word, write_word, read_double_word, write_double_word,
}
use riscv_simulator_pipeline.Memory.RoundTrip.{read_word-write_word}
use riscv_simulator_pipeline.Memory.DoubleWord.{read_double_word-write_double_word}
use riscv_simulator_pipeline.Base.{◌<◌, ◌≤◌, ◌⊎◌, ◌%◌, ◌^◌}
use riscv_simulator_pipeline.Memory.Laws.{IsMemory, byte_at, byte_at-write}
use riscv_simulator_pipeline.Memory.Wide.{read_word_total}

abbrev two_blocks : Memory
two_blocks = record {
  blocks = (0, 1 ∷ 2 ∷ 3 ∷ 4 ∷ []) ∷ (2, 5 ∷ 6 ∷ 7 ∷ 8 ∷ []) ∷ [];
  block_size = 4;
  memory_size = 16;
}

two_blocks-IsMemory : IsMemory two_blocks
two_blocks-IsMemory = record { positive = omega arith; sized = (refl, (refl, tt)) }

-- A write into a block that is not there yet.
byte_at-write_example :
    (m : Memory) × (write two_blocks 6 99 ≡ ok m)
    × IsMemory m
    × (m.memory_size ≡ 16)
    × ((b : ℕ) → byte_at m b ≡ (if b == 6 then 99 else byte_at two_blocks b))
byte_at-write_example = byte_at-write two_blocks 6 99 two_blocks-IsMemory (omega arith)

read_word_total_example : (word : ℕ) × (read_word two_blocks 2 ≡ ok word)
read_word_total_example = read_word_total two_blocks 2 (omega arith) (omega arith)

-- A word over the end of one block and the start of another.
read_word-write_word_example :
    (m : Memory) × (write_word two_blocks 6 0x12345678 ≡ ok m)
    × IsMemory m
    × (read_word m 6 ≡ ok (0x12345678 % 2 ^ 32))
    × ((b : ℕ) → (b < 6) ⊎ (10 ≤ b) → byte_at m b ≡ byte_at two_blocks b)
read_word-write_word_example =
    read_word-write_word two_blocks 6 0x12345678 two_blocks-IsMemory (omega arith) (omega arith)

read_double_word-write_double_word_example :
    (m : Memory) × (write_double_word two_blocks 5 0x1122334455667788 ≡ ok m)
    × IsMemory m
    × (read_double_word m 5 ≡ ok (0x1122334455667788 % 2 ^ 64))
    × ((b : ℕ) → (b < 5) ⊎ (13 ≤ b) → byte_at m b ≡ byte_at two_blocks b)
read_double_word-write_double_word_example =
    read_double_word-write_double_word two_blocks 5 0x1122334455667788 two_blocks-IsMemory
      (omega arith) (omega arith)
