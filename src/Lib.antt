-- ===== src/Lib.antt =====
-- A verification library for the core of go-capnp, the Go implementation of Cap'n Proto: the byte
-- layout of messages, and the code that reads it, also from hostile senders.
--
-- The parts, bottom up, with the code that each models (paths from the repository's root):
--   Base       shared: tests on numbers, lists, bit operations as arithmetic (Base/Bits), Go's
--              integers (Base/Int), and calls that return a value or an error or panic (Base/Result).
--   Address    address.go: addresses, sizes, object sizes and bit offsets, checked and unchecked.
--   RawPointer rawpointer.go and bitListSize of list.go: the pointer words of 64 bits.
--   Slice      Go's byte slices, and the bounds checks, reads and writes of segment.go.
--   Message    message.go: the loaded segments, the traversal limit (canRead, Unread,
--              ResetReadLimit) and the depth limit.
--   Segment    segment.go: lookupSegment, resolveFarPointer, readStructPtr, readListPtr, readPtr.
--              Segment/Shapes has the sizes of what readPtr hands out.
--   Memory     segment.go: loads and stores through a segment of a message, whose segments they change.
--   StructFields  struct.go: the integer and Boolean fields of a struct, and its pointers as they are read.
--   Lists      list.go: sizes and pointer words of lists, and the elements of lists of integers, bits
--              and structs.
--   Builder    message.go: setSegment, allocSegment and alloc. Builder/Objects has NewStruct of struct.go
--              and the functions of list.go that make lists, Builder/Pointers the part of writePtr in
--              segment.go that writes a near, far or double-far pointer.
--   Copying    segment.go and struct.go: writePtr and copyStruct, from one message to another or within one;
--              captable.go: Get and Add. Its child modules have lemmas on copies from another message into one
--              of one segment: Reads on the source, Keeps, Sections and Bytes on the data, Structs and
--              Elements on the loops.
--   Root       message.go: NewMessage, Reset, Root, SetRoot and TotalSize, with SetPtr and NewRootStruct of
--              struct.go and PointerList of list.go. Root/Delivery takes a message from NewMessage over
--              Marshal and Unmarshal to the field that a reader finds.
--   Text       pointer.go and list.go: text and data, as they are made and read.
--   Framing    codec.go, Marshal and MarshalPacked of message.go, demux of arena.go: the stream that
--              holds the segments. Framing/Encoder has the Encoder's buffers and the packed forms.
--   Arena      arena.go: nextAlloc, hasCapacity, and Allocate of both arenas (Arena/Allocate). What the
--              interface Arena promises is Arena/Contract, which Builder relies on: it speaks of fewer than 2^32
--              segments, since an id is a uint32, which the index of a further one would wrap.
--   Packed     packed/packed.go: Pack and Unpack.
--   RingQueue  flowcontrol/bbr/queue.go: the queue of the flow controller, apart from the others.
--   RefCount   util/rc/ref.go: reference-counted cells as states and steps, apart from the others.
--   IdGen      rpc/idgen.go: the ids of an RPC connection and the bit set of those to be used again, apart
--              from the others.
-- A reader takes a stream through Packed and Framing to segments, which Message holds and Segment
-- reads: each pointer word is taken from a Slice, decoded by RawPointer, and checked by Address. To build a
-- message, Builder takes space from an arena, Lists and StructFields fill it through Memory, and Builder
-- and Copying place the pointers, and Root makes one of the objects the message's root.
--
-- The correspondence: a function keeps its name, in lower case with underscores; a Go method takes its
-- receiver first and returns the new state where it changes it. A number of type uint32 (address,
-- Size, SegmentID) is a natural number with the wrap-around written out; an int32 is an integer. A
-- pair of a value and a bool stays a pair, a value with an error is a Result, and an index or a slice
-- out of range is a panic of that Result. Int has 64 bits. A loop is a recursion on the number of
-- rounds that are left, or over the list that it ranges over. Two loops are on fuel: in Pack and
-- Unpack it is the length of the input, of which each round takes one byte at least; the loop of
-- nextAlloc has four rounds, since four times a quarter more doubles a size of 512 or more. The end of
-- the fuel is a panic or none, which the results on these functions exclude. writePtr is on fuel for the levels of the
-- objects that it copies; without a copy it takes one.
--
-- Concurrency: a call on a reference-counted cell is one step, and calls follow each other in any order; the
-- compare-and-swap loop of canRead and Unread is one exchange, and a message is read
-- by one goroutine; Message.mu is not modelled. The segments of a message are those that its arena
-- holds, all loaded.
--
-- Parameters: the pool of buffers, which may return used memory, is a function to the bytes of a buffer of
-- at least the length asked for.
--
-- Not modelled: the canonical form, defaults, equality, the streaming Decoder and packed.Reader, capabilities, RPC but for its ids, flow control but
-- for its queue, and the tools.
pub mod Base
pub mod Address
pub mod RawPointer
pub mod Slice
pub mod Message
pub mod Segment
pub mod Memory
pub mod StructFields
pub mod Lists
pub mod Packed
pub mod Arena
pub mod Builder
pub mod Copying
pub mod Root
pub mod Text
pub mod Framing
pub mod RingQueue
pub mod RefCount
pub mod IdGen
