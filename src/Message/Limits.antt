-- ===== src/Message/Limits.antt =====
-- The read limit: the amplification bound of a message.
use go_capnp.Base.{ℕ, ◌+◌, ◌^◌, ◌≤◌, ◌<◌, ◌≡◌, arith, true, false, List, [], ◌∷◌, if◌then◌else◌}
use go_capnp.Message.{Message, read_limit, can_read, unread}

-- The bytes that a sequence of calls of `canRead` allows to be read, and the message behind them.
unfoldable pub allowed : Message → List ℕ → ℕ × Message
allowed m [] = (0, m)
allowed m (sz ∷ szs) =
    let (granted, m') = can_read m sz in
    let (total, m'') = allowed m' szs in (if granted then sz + total else total, m'')

can_read_lem :
    (m : Message) (sz : ℕ)
    → (if (can_read m sz).0 then sz else 0) + read_limit (can_read m sz).1 ≤ read_limit m
unfolding can_read
can_read_lem m sz = ground arith

-- However often pointers are read, the bytes allowed and the limit that is left never exceed the
-- limit at the start.
pub allowed-le-read_limit :
    (m : Message) (szs : List ℕ) → (allowed m szs).0 + read_limit (allowed m szs).1 ≤ read_limit m
unfolding allowed
allowed-le-read_limit m [] = omega arith
allowed-le-read_limit m (sz ∷ szs) =
    ground (arith, can_read_lem m sz, allowed-le-read_limit (can_read m sz).1 szs)

-- A refused read leaves nothing: every later read of any bytes is refused too, until the limit is
-- raised.
pub refused_stays :
    (m : Message) (sz next : ℕ)
    → (can_read m sz).0 ≡ false
    → 0 < next
    → (can_read (can_read m sz).1 next).0 ≡ false
unfolding can_read
refused_stays m sz next h p = ground arith

-- Unread gives back what a granted read took, where the limit is a uint64.
pub unread-can_read :
    (m : Message) (sz : ℕ)
    → read_limit m < 2 ^ 64
    → (can_read m sz).0 ≡ true
    → read_limit (unread (can_read m sz).1 sz) ≡ read_limit m
unfolding can_read unread
unread-can_read m sz h granted = ground arith
