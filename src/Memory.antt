-- ===== src/Memory.antt =====
-- include/vm/main_memory.h, src/vm/main_memory.cpp and include/vm/memory_controller.h: the main
-- memory, in blocks that are made when a byte of them is first written. The controller passes each
-- call on to it.
pub mod Laws
mod Tests
pub mod Wide
pub mod RoundTrip
pub mod DoubleWord
use riscv_simulator_pipeline.Base.{ℕ, zero, suc, ◌+◌, ◌*◌, ◌/◌, ◌%◌, ◌^◌, bit_or}
use riscv_simulator_pipeline.Base.{Bool, true, false, List, [], ◌∷◌, Option, none, some}
use riscv_simulator_pipeline.Base.{get_or, set, replicate, ltb, leb, ◌==◌, if◌then◌else◌}
use riscv_simulator_pipeline.Base.{
  shr, low_bits, add64, sub64, Result, ok, err, ◌>>=◌, out_of_range,
}

abbrev pub Blocks : Type 0
Blocks = List (ℕ × List ℕ)

-- `blocks_`, `block_size_` and `memory_size_`
pub record Memory : Type 0 where
  pub blocks : Blocks
  pub block_size : ℕ
  pub memory_size : ℕ

-- MemoryBlock()
unfoldable pub new_block : ℕ → List ℕ
new_block block_size = replicate block_size 0

unfoldable pub reset : Memory → Memory
reset m = record m { blocks = [] }

unfoldable pub get_block_index : Memory → ℕ → ℕ
get_block_index m address = address / m.block_size

unfoldable pub get_block_offset : Memory → ℕ → ℕ
get_block_offset m address = address % m.block_size

-- blocks_.find(block_index)
unfoldable pub find_block : Blocks → ℕ → Option (List ℕ)
find_block [] index = none
find_block ((i, block) ∷ blocks) index = if i == index then some block else find_block blocks index

unfoldable pub is_block_present : Memory → ℕ → Bool
unfolding find_block
is_block_present m index = elim (find_block m.blocks index) [ none ↦ false | some block ↦ true ]

unfoldable pub ensure_block_exists : Memory → ℕ → Memory
ensure_block_exists m index =
    if is_block_present m index
    then m
    else record m { blocks = (index, new_block m.block_size) ∷ m.blocks }

-- The byte that `blocks_[index].data[offset]` reads.
unfoldable pub byte_in : Blocks → ℕ → ℕ → ℕ
unfolding find_block
byte_in blocks index offset = elim (find_block blocks index) [
  | none ↦ 0
  | some block ↦ get_or block offset 0
]

-- The write of `blocks_[index].data[offset]`.
unfoldable pub set_byte_in : Blocks → ℕ → ℕ → ℕ → Blocks
set_byte_in [] index offset value = []
set_byte_in ((i, block) ∷ blocks) index offset value =
    if i == index
    then (i, set block offset value) ∷ blocks
    else (i, block) ∷ set_byte_in blocks index offset value

unfoldable pub read : Memory → ℕ → Result ℕ
read m address =
    if leb m.memory_size address
    then err out_of_range
    else let index = get_block_index m address in
      let offset = get_block_offset m address in
      if is_block_present m index then ok (byte_in m.blocks index offset) else ok 0

unfoldable pub write : Memory → ℕ → ℕ → Result Memory
write m address value =
    if leb m.memory_size address
    then err out_of_range
    else let index = get_block_index m address in
      let offset = get_block_offset m address in
      let m' = ensure_block_exists m index in
      ok (record m' { blocks = set_byte_in m'.blocks index offset value })

-- The loop of ReadGeneric<T> with `left` rounds to go, at byte `i`.
unfoldable pub read_generic : ℕ → ℕ → Memory → ℕ → ℕ → Result ℕ
read_generic zero i m address value = ok value
read_generic (suc left) i m address value = do
  byte ← read m (add64 address i)
  read_generic left (i + 1) m address (bit_or value (byte * 2 ^ (8 * i)))

-- The loop of WriteGeneric<T>.
unfoldable pub write_generic : ℕ → ℕ → Memory → ℕ → ℕ → Result Memory
write_generic zero i m address value = ok m
write_generic (suc left) i m address value = do
  m' ← write m (add64 address i) (low_bits (shr value (8 * i)) 8)
  write_generic left (i + 1) m' address value

-- The test at the head of each access of `size` bytes: `address >= memory_size_ - (size - 1)`.
unfoldable pub in_range : Memory → ℕ → ℕ → Bool
in_range m address spare = ltb address (sub64 m.memory_size spare)

unfoldable pub read_byte : Memory → ℕ → Result ℕ
read_byte m address = if in_range m address 0 then read m address else err out_of_range

unfoldable pub read_half_word : Memory → ℕ → Result ℕ
read_half_word m address =
    if in_range m address 1 then read_generic 2 0 m address 0 else err out_of_range

unfoldable pub read_word : Memory → ℕ → Result ℕ
read_word m address =
    if in_range m address 3 then read_generic 4 0 m address 0 else err out_of_range

unfoldable pub read_double_word : Memory → ℕ → Result ℕ
read_double_word m address =
    if in_range m address 7 then read_generic 8 0 m address 0 else err out_of_range

unfoldable pub write_byte : Memory → ℕ → ℕ → Result Memory
write_byte m address value =
    if in_range m address 0 then write m address value else err out_of_range

unfoldable pub write_half_word : Memory → ℕ → ℕ → Result Memory
write_half_word m address value =
    if in_range m address 1 then write_generic 2 0 m address value else err out_of_range

unfoldable pub write_word : Memory → ℕ → ℕ → Result Memory
write_word m address value =
    if in_range m address 3 then write_generic 4 0 m address value else err out_of_range

unfoldable pub write_double_word : Memory → ℕ → ℕ → Result Memory
write_double_word m address value =
    if in_range m address 7 then write_generic 8 0 m address value else err out_of_range
