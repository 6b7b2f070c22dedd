-- ===== src/Message/Tests.antt =====
-- The theorems on read limits at concrete inputs.
use go_capnp.Base.{◌+◌, ◌^◌, ◌≤◌, ◌<◌, ◌≡◌, refl, true, false, arith, [], ◌∷◌, some}
use go_capnp.Message.{Message, read_limit, can_read, unread}
use go_capnp.Message.Limits.{allowed, allowed-le-read_limit, refused_stays, unread-can_read}

abbrev hundred : Message
hundred = record { segs = []; rlimit = some 100; traverse_limit = 0; depth_limit = 0 }

grants : (allowed hundred (60 ∷ 50 ∷ 1 ∷ [])).0 ≡ 60
unfolding allowed can_read
grants = refl

allowed_example :
    (allowed hundred (60 ∷ 50 ∷ 1 ∷ [])).0 + read_limit (allowed hundred (60 ∷ 50 ∷ 1 ∷ [])).1
    ≤ read_limit hundred
allowed_example = allowed-le-read_limit hundred (60 ∷ 50 ∷ 1 ∷ [])

refused : (can_read hundred 101).0 ≡ false
unfolding can_read
refused = refl

refused_stays_example : (can_read (can_read hundred 101).1 1).0 ≡ false
refused_stays_example = refused_stays hundred 101 1 refused (omega arith)

granted : (can_read hundred 70).0 ≡ true
unfolding can_read
granted = refl

fits : read_limit hundred < 2 ^ 64
unfolding read_limit
fits = omega arith

unread_example : read_limit (unread (can_read hundred 70).1 70) ≡ read_limit hundred
unread_example = unread-can_read hundred 70 fits granted
