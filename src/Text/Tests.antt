-- ===== src/Text/Tests.antt =====
-- The round trip of a text at "Hi".
use go_capnp.Base.{arith, [], ◌∷◌}
use go_capnp.Base.Result.{Ensures}
use go_capnp.Memory.Examples.{message}
use go_capnp.Arena.Allocate.{allocate_multi}
use go_capnp.Arena.Meets.{allocate_multi-IsArena}
use go_capnp.Arena.Examples.{fresh, fresh-IsPool}
use go_capnp.Builder.Examples.{message-IsBuilder}
use go_capnp.Text.{new_text}
use go_capnp.Text.RoundTrip.{IsText, new_text-IsText}

new_text-IsText_example :
    Ensures
      (IsText message (72 ∷ 105 ∷ []))
      (new_text (allocate_multi fresh) message 0 (72 ∷ 105 ∷ []))
new_text-IsText_example =
    new_text-IsText (allocate_multi fresh) message 0 (72 ∷ 105 ∷ [])
      (allocate_multi-IsArena fresh fresh-IsPool) message-IsBuilder (omega arith) (omega arith)
      (omega arith, (omega arith, tt)) (omega arith)
