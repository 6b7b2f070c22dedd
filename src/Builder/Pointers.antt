-- ===== src/Builder/Pointers.antt =====
-- segment.go: the last part of writePtr, the pointer at `off` of segment s to what lies at `src_addr` of
-- segment src. `raw` is its pointer word with a zero offset.
use go_capnp.Base.{ℕ, List, ◌*◌, ◌==◌, if◌then◌else◌}
use go_capnp.Base.Result.{Result, ok, err, panic, wrap_error, ◌>>=◌}
use go_capnp.Address.{word_size, add_size_unchecked}
use go_capnp.Slice.{Slice}
use go_capnp.Message.{Message}
use go_capnp.RawPointer.{with_offset, near_pointer_offset, raw_far_pointer, raw_double_far_pointer}
use go_capnp.Memory.{store, segment_bytes}
use go_capnp.Arena.{has_capacity}
use go_capnp.Builder.{alloc}

unfoldable pub place_near : Message → ℕ → ℕ → ℕ → ℕ → Result Message
place_near m s off src_addr raw =
    store 8 m s off (with_offset raw (near_pointer_offset off src_addr))

-- `_, padAddr, _ := alloc(...)`: the address is 0 where there was an error.
abbrev pub address_or_zero : Message → Result (Message × ℕ × ℕ) → Result (Message × ℕ)
address_or_zero m (ok (m', seg, addr)) = ok (m', addr)
address_or_zero m (err e) = ok (m, 0)
address_or_zero m (panic s) = panic s

module _ (allocate : ℕ → List Slice → Result (ℕ × Slice)) (m : Message)
    (s off src src_addr raw : ℕ) where
  unfoldable pub place_far : Result Message
  place_far = do
    (m1, pad_addr) ← address_or_zero m (alloc allocate m src word_size)
    m2 ← store 8 m1 src pad_addr (with_offset raw (near_pointer_offset pad_addr src_addr))
    store 8 m2 s off (raw_far_pointer src pad_addr)

  unfoldable pub place_double_far : Result Message
  place_double_far = do
    (m1, pad, pad_addr) ←
        wrap_error "write pointer: make landing pad" (alloc allocate m s (word_size * 2))
    m2 ← store 8 m1 pad pad_addr (raw_far_pointer src src_addr)
    m3 ← store 8 m2 pad (add_size_unchecked pad_addr word_size) raw
    store 8 m3 s off (raw_double_far_pointer pad pad_addr)

  unfoldable pub place_pointer : Result Message
  place_pointer = if src == s then place_near m s off src_addr raw else do
    d ← segment_bytes m src
    if has_capacity d word_size then place_far else place_double_far
