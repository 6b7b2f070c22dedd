-- ===== src/Builder/Examples.antt =====
-- message.go: a message to build in, for runs of the code.
use go_capnp.Base.{refl, ◌≡◌, ◌%◌}
use go_capnp.Memory.Examples.{message, message-IsMemory, first_segment}
use go_capnp.Builder.Extends.{IsBuilder}

pub message-IsBuilder : IsBuilder message
message-IsBuilder = record {
  segments = record { slices = message-IsMemory.slices; small = message-IsMemory.small };
  whole = λ id d e. first_segment id d e (λ s. s.len % 8 ≡ 0) refl;
}
