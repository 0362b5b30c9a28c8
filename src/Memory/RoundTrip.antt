-- ===== src/Memory/RoundTrip.antt =====
-- What WriteWord stores, ReadWord reads back.
use riscv_simulator_pipeline.Base.{
  ℕ, zero, suc, ◌+◌, ◌-◌, ◌*◌, ◌/◌, ◌%◌, ◌^◌, ◌≤◌, ◌<◌, ◌≡◌, refl, ap, ◌∙◌, bit_or, arith,
}
use riscv_simulator_pipeline.Base.{
  ◌==◌, ltb, leb, ◌&&◌, if◌then◌else◌, shr, low_bits, add64, sub64, ok, lt→ltb, ◌⊎◌,
}
use riscv_simulator_pipeline.Base.Bits.{bit_or_fields}
use riscv_simulator_pipeline.Memory.{
  Memory, read, read_generic, write_generic, in_range, read_word, write_word,
}
use riscv_simulator_pipeline.Memory.Laws.{IsMemory, byte_at, byte_at-write, read_lem}

-- The byte `k` of a number.
unfoldable pub byte_of : ℕ → ℕ → ℕ
byte_of value k = low_bits (shr value (8 * k)) 8

-- The memory after the loop of a write, from the byte `i` on.
pub record Stores (left i : ℕ) (m : Memory) (address value : ℕ) (m' : Memory) : Type 0 where
  pub well_formed : IsMemory m'
  pub same_size : m'.memory_size ≡ m.memory_size
  pub bytes :
      (b : ℕ)
      → byte_at m' b ≡ (
          if leb (address + i) b && ltb b (address + i + left)
          then byte_of value (b - address)
          else byte_at m b)

-- One turn of the loop, at an address `b` that holds `before`, then `between`, then `after`.
bytes_step :
    (left i address value b before between after : ℕ)
    → address + i < 2 ^ 64
    → between ≡ (if b == add64 address i then byte_of value i else before)
    → after ≡ (
        if leb (address + (i + 1)) b && ltb b (address + (i + 1) + left)
        then byte_of value (b - address)
        else between)
    → after ≡ (
        if leb (address + i) b && ltb b (address + i + suc left)
        then byte_of value (b - address)
        else before)
bytes_step left i address value b before between after h h1 h2 =
    let here : b ≡ address + i → byte_of value (b - address) ≡ byte_of value i =
      λ e. ap (byte_of value) (omega (arith, e)) in
    ground (arith, here, h1, h2)

pub write_generic-Stores :
    (left i : ℕ) (m : Memory) (address value : ℕ)
    → IsMemory m
    → address + i + left ≤ m.memory_size
    → m.memory_size < 2 ^ 64
    → (m' : Memory) × (write_generic left i m address value ≡ ok m')
      × Stores left i m address value m'
unfolding write_generic byte_of
write_generic-Stores zero i m address value h fits bounded =
    (m, refl, record { well_formed = h; same_size = refl; bytes = λ b. ground arith })
write_generic-Stores (suc left) i m address value h fits bounded =
    let (m1, e1, h1, size1, bytes1) =
      byte_at-write m (add64 address i) (byte_of value i) h (omega arith) in
    let (m2, e2, s2) =
      write_generic-Stores left (i + 1) m1 address value h1 (omega (arith, size1))
        (omega (arith, size1)) in
    (
      m2,
      rw e1 e2,
      record {
        well_formed = s2.well_formed;
        same_size = s2.same_size ∙ size1;
        bytes = λ b. bytes_step left i address value b _ _ _ (omega arith) (bytes1 b) (s2.bytes b);
      },
    )

read_ok :
    (m : Memory) (address : ℕ) → address < m.memory_size → read m address ≡ ok (byte_at m address)
read_ok m address h = ground (arith, read_lem m address)

-- A byte of a number that is stored at `address`.
pub read-byte_of :
    (m : Memory) (address value k : ℕ)
    → address + k < m.memory_size
    → m.memory_size < 2 ^ 64
    → byte_at m (address + k) ≡ byte_of value k
    → read m (add64 address k) ≡ ok (byte_of value k)
read-byte_of m address value k below bounded e =
    let here : add64 address k ≡ address + k = omega arith in
    rw here (read_ok m (address + k) below ∙ ap (λ (b : ℕ). ok b) e)

join_four :
    (value : ℕ)
    → bit_or
        (bit_or
          (bit_or (bit_or 0 (value / 2 ^ 0 % 2 ^ 8 * 2 ^ 0)) (value / 2 ^ 8 % 2 ^ 8 * 2 ^ 8))
          (value / 2 ^ 16 % 2 ^ 8 * 2 ^ 16))
        (value / 2 ^ 24 % 2 ^ 8 * 2 ^ 24)
      ≡ value % 2 ^ 32
join_four value =
    rw
      (
        bit_or_fields 0 (value / 2 ^ 0 % 2 ^ 8) 0 (omega arith),
        bit_or_fields 8 (value / 2 ^ 8 % 2 ^ 8) (value / 2 ^ 0 % 2 ^ 8 * 2 ^ 0 + 0) (omega arith),
        bit_or_fields 16 (value / 2 ^ 16 % 2 ^ 8)
            (value / 2 ^ 8 % 2 ^ 8 * 2 ^ 8 + (value / 2 ^ 0 % 2 ^ 8 * 2 ^ 0 + 0)) (omega arith),
        bit_or_fields 24 (value / 2 ^ 24 % 2 ^ 8)
            (value / 2 ^ 16 % 2 ^ 8 * 2 ^ 16
              + (value / 2 ^ 8 % 2 ^ 8 * 2 ^ 8 + (value / 2 ^ 0 % 2 ^ 8 * 2 ^ 0 + 0)))
            (omega arith),
      )
      (omega arith)

-- Four bytes, put together by the loop of a read.
read_generic_four :
    (m : Memory) (address value : ℕ)
    → address + 4 ≤ m.memory_size
    → m.memory_size < 2 ^ 64
    → ((k : ℕ) → k < 4 → byte_at m (address + k) ≡ byte_of value k)
    → read_generic 4 0 m address 0 ≡ ok (value % 2 ^ 32)
unfolding read_generic byte_of
read_generic_four m address value fits bounded bytes =
    let r : (k : ℕ) → k < 4 → read m (add64 address k) ≡ ok (byte_of value k) =
      λ k small. read-byte_of m address value k (omega arith) bounded (bytes k small) in
    rw (r 0 (omega arith), r 1 (omega arith), r 2 (omega arith), r 3 (omega arith))
      (ap (λ (v : ℕ). ok v) (join_four value))

-- The bytes of the stored number, as a read meets them.
pub stored_bytes :
    (left : ℕ) (m : Memory) (address value : ℕ) (m' : Memory)
    → Stores left 0 m address value m'
    → (k : ℕ) → k < left
    → byte_at m' (address + k) ≡ byte_of value k
stored_bytes left m address value m' s k small =
    let same : byte_of value (address + k - address) ≡ byte_of value k =
      ap (byte_of value) (omega arith) in
    ground (arith, s.bytes (address + k), same)

-- In a well-formed memory of a size of 64 bits, a word written where its four bytes lie inside
-- the memory is stored, in as many blocks as it meets; the memory stays well-formed, ReadWord
-- reads the lowest 32 bits of the value back, and no byte outside the four changes.
pub read_word-write_word :
    (m : Memory) (address value : ℕ)
    → IsMemory m
    → address + 3 < m.memory_size
    → m.memory_size < 2 ^ 64
    → (m' : Memory) × (write_word m address value ≡ ok m')
      × IsMemory m'
      × (read_word m' address ≡ ok (value % 2 ^ 32))
      × ((b : ℕ) → (b < address) ⊎ (address + 4 ≤ b) → byte_at m' b ≡ byte_at m b)
unfolding write_word read_word in_range
read_word-write_word m address value h below bounded =
    let (m', e, s) = write_generic-Stores 4 0 m address value h (omega arith) bounded in
    (
      m',
      rw (lt→ltb address (sub64 m.memory_size 3) (omega arith)) e,
      s.well_formed,
      rw (lt→ltb address (sub64 m'.memory_size 3) (omega (arith, s.same_size))) (
          read_generic_four m' address value (omega (arith, s.same_size))
            (omega (arith, s.same_size)) (stored_bytes 4 m address value m' s)),
      λ b outside. ground (arith, s.bytes b, outside),
    )
