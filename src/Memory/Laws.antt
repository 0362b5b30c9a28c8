-- ===== src/Memory/Laws.antt =====
-- Memory::Read and Memory::Write: the byte that an address holds, before and after a write.
use riscv_simulator_pipeline.Base.{ℕ, zero, suc, ◌+◌, ◌*◌, ◌/◌, ◌%◌, ◌<◌, ◌≡◌, refl, ◌∙◌}
use riscv_simulator_pipeline.Base.{Bool, true, false, Option, none, some, List, [], ◌∷◌, arith}
use riscv_simulator_pipeline.Base.{◌==◌, leb, if◌then◌else◌, length}
use riscv_simulator_pipeline.Base.{length-set, get_or-set_self, get_or-set_ne, get_or-replicate}
use riscv_simulator_pipeline.Base.{length-replicate, ==_iff, Bool-cases, inl, inr, add64, shr}
use riscv_simulator_pipeline.Base.{low_bits, Result, ok, err, out_of_range}
use riscv_simulator_pipeline.Base.{Fault, Ensures, returns, faults, Ensures-bind}
use native.Mathlib.Nat.{div-add-mod, mod-lt}
use mathlib.Core.Path.{sym, ap₂}
use riscv_simulator_pipeline.Memory.{
  Memory, Blocks, new_block, get_block_index, get_block_offset, find_block, is_block_present,
  ensure_block_exists, byte_in, set_byte_in, read, write, write_generic, write_byte,
  write_half_word, write_word, write_double_word,
}

-- The byte at an address, 0 where no block is.
unfoldable pub byte_at : Memory → ℕ → ℕ
unfolding byte_in
byte_at m address = byte_in m.blocks (address / m.block_size) (address % m.block_size)

-- Every block has the length that the configuration gives, which is not 0.
abbrev pub AllBlocks : ℕ → Blocks → Type 0
AllBlocks size [] = Unit
AllBlocks size ((i, block) ∷ blocks) = (length block ≡ size) × AllBlocks size blocks

pub record IsMemory (m : Memory) : Type 0 where
  pub positive : 0 < m.block_size
  pub sized : AllBlocks m.block_size m.blocks

abbrev present : Option (List ℕ) → Bool
present none = false
present (some block) = true

-- A write into a block that is there.
byte_in-set_byte_in :
    (size : ℕ) (blocks : Blocks) (index offset value i o : ℕ)
    → AllBlocks size blocks
    → offset < size
    → present (find_block blocks index) ≡ true
    → byte_in (set_byte_in blocks index offset value) i o ≡ (
        if i == index
        then (if o == offset then value else byte_in blocks i o)
        else byte_in blocks i o)
unfolding byte_in set_byte_in find_block
byte_in-set_byte_in size [] index offset value i o sized below h = ground arith
byte_in-set_byte_in size ((k, block) ∷ blocks) index offset value i o sized below h = ground (
  arith,
  get_or-set_self block offset value 0,
  get_or-set_ne block offset o value 0,
  byte_in-set_byte_in size blocks index offset value i o sized.1 below,
)

AllBlocks-set_byte_in :
    (size : ℕ) (blocks : Blocks) (index offset value : ℕ)
    → AllBlocks size blocks
    → AllBlocks size (set_byte_in blocks index offset value)
unfolding set_byte_in
AllBlocks-set_byte_in size [] index offset value h = tt
AllBlocks-set_byte_in size ((k, block) ∷ blocks) index offset value h =
    elim (Bool-cases (k == index)) [
      | inl e ↦ rw e (length-set block offset value ∙ h.0, h.1)
      | inr e ↦ rw e (h.0, AllBlocks-set_byte_in size blocks index offset value h.1)
    ]

module _ (m : Memory) (index : ℕ) where
  ensured-present : present (find_block (ensure_block_exists m index).blocks index) ≡ true
  unfolding ensure_block_exists find_block is_block_present
  ensured-present = ground arith

  ensured-byte_in :
      (i o : ℕ) → byte_in (ensure_block_exists m index).blocks i o ≡ byte_in m.blocks i o
  unfolding ensure_block_exists byte_in find_block is_block_present new_block
  ensured-byte_in i o = ground (arith, get_or-replicate {A = ℕ} m.block_size o 0)

  ensured-AllBlocks : IsMemory m → AllBlocks m.block_size (ensure_block_exists m index).blocks
  unfolding ensure_block_exists new_block
  ensured-AllBlocks h = elim (Bool-cases (is_block_present m index)) [
    | inl e ↦ rw e h.sized
    | inr e ↦ rw e (length-replicate {A = ℕ} m.block_size 0, h.sized)
  ]

module _ (m : Memory) (index : ℕ) where
  ensured_sizes :
      ((ensure_block_exists m index).block_size ≡ m.block_size)
      × ((ensure_block_exists m index).memory_size ≡ m.memory_size)
  unfolding ensure_block_exists
  ensured_sizes = ground arith

-- An address is known by its block and its place there.
address_eq : (size a b : ℕ) → b / size ≡ a / size → b % size ≡ a % size → b ≡ a
address_eq size a b p q =
    sym (div-add-mod b size) ∙ ap₂ (λ (x y : ℕ). size * x + y) p q ∙ div-add-mod a size

same_address :
    (size a b old value : ℕ)
    → (if b / size == a / size then (if b % size == a % size then value else old) else old)
      ≡ (if b == a then value else old)
same_address size a b old value = elim (Bool-cases (b == a)) [
  | inl e ↦ rw (e, (==_iff b a).0 e) (ground arith)
  | inr e ↦ rw e (ground (arith, address_eq size a b))
]

pub read_lem :
    (m : Memory) (address : ℕ)
    → read m address
      ≡ (if leb m.memory_size address then err out_of_range else ok (byte_at m address))
unfolding read get_block_index get_block_offset byte_at is_block_present byte_in
read_lem m address = ground arith

-- The memory after a write of a byte.
abbrev stored : Memory → ℕ → ℕ → Memory
stored m address value =
    let index = get_block_index m address in
    let m' = ensure_block_exists m index in
    record m' { blocks = set_byte_in m'.blocks index (get_block_offset m address) value }

module _ (m : Memory) (address value : ℕ) where
  write_lem :
      write m address value
      ≡ (if leb m.memory_size address then err out_of_range else ok (stored m address value))
  unfolding write
  write_lem = refl

  stored_sizes :
      ((stored m address value).block_size ≡ m.block_size)
      × ((stored m address value).memory_size ≡ m.memory_size)
  stored_sizes = ensured_sizes m (get_block_index m address)

  stored-IsMemory : IsMemory m → IsMemory (stored m address value)
  stored-IsMemory h = record {
    positive = rw (stored_sizes.0) (h.positive);
    sized =
        rw (stored_sizes.0)
          (AllBlocks-set_byte_in _ _ _ _ value (ensured-AllBlocks m (get_block_index m address) h));
  }

  byte_at-stored :
      (b : ℕ)
      → IsMemory m
      → byte_at (stored m address value) b ≡ (if b == address then value else byte_at m b)
  unfolding byte_at get_block_index get_block_offset
  byte_at-stored b h =
      rw
        (
          stored_sizes.0,
          byte_in-set_byte_in m.block_size _ _ _ value _ _
              (ensured-AllBlocks m (get_block_index m address) h) (mod-lt address h.positive)
              (ensured-present m (get_block_index m address)),
          ensured-byte_in m (get_block_index m address) _ _,
        )
        (same_address m.block_size address b _ value)

-- A write of a byte inside a well-formed memory succeeds, keeps it well-formed and of the same
-- size, and changes the byte at its address and no other.
pub byte_at-write :
    (m : Memory) (address value : ℕ)
    → IsMemory m
    → address < m.memory_size
    → (m' : Memory) × (write m address value ≡ ok m')
      × IsMemory m'
      × (m'.memory_size ≡ m.memory_size)
      × ((b : ℕ) → byte_at m' b ≡ (if b == address then value else byte_at m b))
byte_at-write m address value h below = (
  stored m address value,
  ground (arith, write_lem m address value),
  stored-IsMemory m address value h,
  (stored_sizes m address value).1,
  λ b. byte_at-stored m address value b h,
)

-- No write changes the size of the memory.
pub write-memory_size :
    (m : Memory) (address value : ℕ)
    → Ensures (λ m'. m'.memory_size ≡ m.memory_size) (write m address value)
write-memory_size m address value =
    rw (write_lem m address value)
      (elim (leb m.memory_size address)
        as (λ b.
          Ensures (λ (m' : Memory). m'.memory_size ≡ m.memory_size)
            (if b then err out_of_range else ok (stored m address value))) [
              | true ↦ faults
              | false ↦ returns (stored_sizes m address value).1
            ])

pub write_generic-memory_size :
    (left i : ℕ) (m : Memory) (address value : ℕ)
    → Ensures (λ m'. m'.memory_size ≡ m.memory_size) (write_generic left i m address value)
unfolding write_generic
write_generic-memory_size zero i m address value = returns refl
write_generic-memory_size (suc left) i m address value =
    Ensures-bind (write-memory_size m (add64 address i) (low_bits (shr value (8 * i)) 8))
      (λ m' e. rw (← e) (write_generic-memory_size left (i + 1) m' address value))

if_else-Ensures {ℓ κ} :
    {A : Type ℓ} {P : A → Type κ} {r : Result A} (b : Bool) (e : Fault)
    → Ensures P r
    → Ensures P (if b then r else err e)
if_else-Ensures true e h = h
if_else-Ensures false e h = faults

module _ (m : Memory) (address value : ℕ) where
  abbrev pub SameSize : Memory → Type 0
  SameSize m' = m'.memory_size ≡ m.memory_size

  pub write_byte-memory_size : Ensures SameSize (write_byte m address value)
  unfolding write_byte
  write_byte-memory_size = if_else-Ensures _ _ (write-memory_size m address value)

  pub write_half_word-memory_size : Ensures SameSize (write_half_word m address value)
  unfolding write_half_word
  write_half_word-memory_size = if_else-Ensures _ _ (write_generic-memory_size 2 0 m address value)

  pub write_word-memory_size : Ensures SameSize (write_word m address value)
  unfolding write_word
  write_word-memory_size = if_else-Ensures _ _ (write_generic-memory_size 4 0 m address value)

  pub write_double_word-memory_size : Ensures SameSize (write_double_word m address value)
  unfolding write_double_word
  write_double_word-memory_size =
      if_else-Ensures _ _ (write_generic-memory_size 8 0 m address value)
