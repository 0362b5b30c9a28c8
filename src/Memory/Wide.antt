-- ===== src/Memory/Wide.antt =====
-- Accesses of several bytes: Memory::ReadGeneric and WriteGeneric.
use riscv_simulator_pipeline.Base.{ℕ, zero, suc, ◌+◌, ◌^◌, ◌≤◌, ◌<◌, ◌≡◌, refl}
use riscv_simulator_pipeline.Base.{add64, sub64, ok}
use riscv_simulator_pipeline.Base.{arith, lt→ltb}
use riscv_simulator_pipeline.Memory.{Memory, read, read_generic, read_word, in_range}
use riscv_simulator_pipeline.Memory.Laws.{byte_at, read_lem}

-- A byte inside the memory is read.
read_ok :
    (m : Memory) (address : ℕ) → address < m.memory_size → read m address ≡ ok (byte_at m address)
read_ok m address h = ground (arith, read_lem m address)

-- The loop of a read reaches its end where all of its bytes lie inside the memory.
pub read_generic_total :
    (left i : ℕ) (m : Memory) (address value : ℕ)
    → address + i + left ≤ m.memory_size
    → m.memory_size < 2 ^ 64
    → (result : ℕ) × (read_generic left i m address value ≡ ok result)
unfolding read_generic
read_generic_total zero i m address value h bounded = (value, refl)
read_generic_total (suc left) i m address value h bounded =
    rw (read_ok m (add64 address i) (omega arith))
      (read_generic_total left (i + 1) m address _ (omega arith) bounded)

-- A word whose four bytes lie inside the memory is read, whether their blocks exist or not.
pub read_word_total :
    (m : Memory) (address : ℕ)
    → address + 3 < m.memory_size
    → m.memory_size < 2 ^ 64
    → (word : ℕ) × (read_word m address ≡ ok word)
unfolding read_word in_range
read_word_total m address h bounded =
    rw (lt→ltb address (sub64 m.memory_size 3) (omega arith))
      (read_generic_total 4 0 m address 0 (omega arith) bounded)
