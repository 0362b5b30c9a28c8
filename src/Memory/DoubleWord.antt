-- ===== src/Memory/DoubleWord.antt =====
-- What WriteDoubleWord stores, ReadDoubleWord reads back.
use riscv_simulator_pipeline.Base.{
  ℕ, ◌+◌, ◌*◌, ◌/◌, ◌%◌, ◌^◌, ◌≤◌, ◌<◌, ◌≡◌, ap, ◌⊎◌, bit_or, arith,
}
use riscv_simulator_pipeline.Base.{add64, sub64, ok, lt→ltb}
use riscv_simulator_pipeline.Base.Bits.{bit_or_fields}
use riscv_simulator_pipeline.Memory.{
  Memory, read, read_generic, in_range, read_double_word, write_double_word,
}
use riscv_simulator_pipeline.Memory.Laws.{IsMemory, byte_at}
use riscv_simulator_pipeline.Memory.RoundTrip.{
  byte_of, write_generic-Stores, read-byte_of, stored_bytes,
}

join_eight :
    (value : ℕ)
    → bit_or
        (bit_or
          (bit_or
            (bit_or
              (bit_or
                (bit_or
                  (bit_or
                    (bit_or 0 (value / 2 ^ 0 % 2 ^ 8 * 2 ^ 0))
                    (value / 2 ^ 8 % 2 ^ 8 * 2 ^ 8))
                  (value / 2 ^ 16 % 2 ^ 8 * 2 ^ 16))
                (value / 2 ^ 24 % 2 ^ 8 * 2 ^ 24))
              (value / 2 ^ 32 % 2 ^ 8 * 2 ^ 32))
            (value / 2 ^ 40 % 2 ^ 8 * 2 ^ 40))
          (value / 2 ^ 48 % 2 ^ 8 * 2 ^ 48))
        (value / 2 ^ 56 % 2 ^ 8 * 2 ^ 56)
      ≡ value % 2 ^ 64
join_eight value =
    rw
      (
        bit_or_fields 0 (value / 2 ^ 0 % 2 ^ 8) (0) (omega arith),
        bit_or_fields 8 (value / 2 ^ 8 % 2 ^ 8) (value / 2 ^ 0 % 2 ^ 8 * 2 ^ 0 + (0)) (omega arith),
        bit_or_fields 16 (value / 2 ^ 16 % 2 ^ 8)
            (value / 2 ^ 8 % 2 ^ 8 * 2 ^ 8 + (value / 2 ^ 0 % 2 ^ 8 * 2 ^ 0 + (0))) (omega arith),
        bit_or_fields 24 (value / 2 ^ 24 % 2 ^ 8)
            (value / 2 ^ 16 % 2 ^ 8 * 2 ^ 16
              + (value / 2 ^ 8 % 2 ^ 8 * 2 ^ 8 + (value / 2 ^ 0 % 2 ^ 8 * 2 ^ 0 + (0))))
            (omega arith),
        bit_or_fields 32 (value / 2 ^ 32 % 2 ^ 8)
            (value / 2 ^ 24 % 2 ^ 8 * 2 ^ 24
              + (value / 2 ^ 16 % 2 ^ 8 * 2 ^ 16
                  + (value / 2 ^ 8 % 2 ^ 8 * 2 ^ 8 + (value / 2 ^ 0 % 2 ^ 8 * 2 ^ 0 + (0)))))
            (omega arith),
        bit_or_fields 40 (value / 2 ^ 40 % 2 ^ 8)
            (value / 2 ^ 32 % 2 ^ 8 * 2 ^ 32
              + (value / 2 ^ 24 % 2 ^ 8 * 2 ^ 24
                  + (value / 2 ^ 16 % 2 ^ 8 * 2 ^ 16
                      + (value / 2 ^ 8 % 2 ^ 8 * 2 ^ 8 + (value / 2 ^ 0 % 2 ^ 8 * 2 ^ 0 + (0))))))
            (omega arith),
        bit_or_fields 48 (value / 2 ^ 48 % 2 ^ 8)
            (value / 2 ^ 40 % 2 ^ 8 * 2 ^ 40
              + (value / 2 ^ 32 % 2 ^ 8 * 2 ^ 32
                  + (value / 2 ^ 24 % 2 ^ 8 * 2 ^ 24
                      + (value / 2 ^ 16 % 2 ^ 8 * 2 ^ 16
                          + (value / 2 ^ 8 % 2 ^ 8 * 2 ^ 8
                              + (value / 2 ^ 0 % 2 ^ 8 * 2 ^ 0 + (0)))))))
            (omega arith),
        bit_or_fields 56 (value / 2 ^ 56 % 2 ^ 8)
            (value / 2 ^ 48 % 2 ^ 8 * 2 ^ 48
              + (value / 2 ^ 40 % 2 ^ 8 * 2 ^ 40
                  + (value / 2 ^ 32 % 2 ^ 8 * 2 ^ 32
                      + (value / 2 ^ 24 % 2 ^ 8 * 2 ^ 24
                          + (value / 2 ^ 16 % 2 ^ 8 * 2 ^ 16
                              + (value / 2 ^ 8 % 2 ^ 8 * 2 ^ 8
                                  + (value / 2 ^ 0 % 2 ^ 8 * 2 ^ 0 + (0))))))))
            (omega arith),
      )
      (omega arith)

-- Eight bytes, put together by the loop of a read.
read_generic_eight :
    (m : Memory) (address value : ℕ)
    → address + 8 ≤ m.memory_size
    → m.memory_size < 2 ^ 64
    → ((k : ℕ) → k < 8 → byte_at m (address + k) ≡ byte_of value k)
    → read_generic 8 0 m address 0 ≡ ok (value % 2 ^ 64)
unfolding read_generic byte_of
read_generic_eight m address value fits bounded bytes =
    let r : (k : ℕ) → k < 8 → read m (add64 address k) ≡ ok (byte_of value k) =
      λ k small. read-byte_of m address value k (omega arith) bounded (bytes k small) in
    rw
      (
        r 0 (omega arith),
        r 1 (omega arith),
        r 2 (omega arith),
        r 3 (omega arith),
        r 4 (omega arith),
        r 5 (omega arith),
        r 6 (omega arith),
        r 7 (omega arith),
      )
      (ap (λ (v : ℕ). ok v) (join_eight value))

-- In a well-formed memory of a size of 64 bits, a double word written where its eight bytes lie
-- inside the memory is stored, in as many blocks as it meets; the memory stays well-formed,
-- ReadDoubleWord reads the lowest 64 bits of the value back, and no byte outside the eight
-- changes.
pub read_double_word-write_double_word :
    (m : Memory) (address value : ℕ)
    → IsMemory m
    → address + 7 < m.memory_size
    → m.memory_size < 2 ^ 64
    → (m' : Memory) × (write_double_word m address value ≡ ok m')
      × IsMemory m'
      × (read_double_word m' address ≡ ok (value % 2 ^ 64))
      × ((b : ℕ) → (b < address) ⊎ (address + 8 ≤ b) → byte_at m' b ≡ byte_at m b)
unfolding write_double_word read_double_word in_range
read_double_word-write_double_word m address value h below bounded =
    let (m', e, s) = write_generic-Stores 8 0 m address value h (omega arith) bounded in
    (
      m',
      rw (lt→ltb address (sub64 m.memory_size 7) (omega arith)) e,
      s.well_formed,
      rw (lt→ltb address (sub64 m'.memory_size 7) (omega (arith, s.same_size))) (
          read_generic_eight m' address value (omega (arith, s.same_size))
            (omega (arith, s.same_size)) (stored_bytes 8 m address value m' s)),
      λ b outside. ground (arith, s.bytes b, outside),
    )
