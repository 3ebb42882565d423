-- ===== src/Datagrams.antt =====
-- crates/rfrp-common/src/util/udp.rs: datagrams on a work connection, each behind its length. A
-- reader is the list of the chunks that its reads return, in order; an empty chunk, or no more
-- chunks, is the end of the stream.
pub mod Batches
pub mod Delivery
use rfrpv.Prelude.{
  ℕ, zero, suc, ◌+◌, ◌%◌, Option, none, some, List, [], ◌∷◌, ◌++◌, Bytes, if◌then◌else◌, length,
  take, drop, ltb, is_empty,
}
use rfrpv.Constants.{max_udp_packet_size}
use rfrpv.Errors.{ErrorKind, Error, Result, ok, err, ◌>>=◌, io_kind}
use rfrpv.Protocol.Wire.{u32_mod, to_be_bytes, from_be_bytes}

abbrev pub udp_too_large : Error
udp_too_large = io_kind ErrorKind.invalid_data

abbrev pub udp_truncated : Error
udp_truncated = io_kind ErrorKind.unexpected_eof

-- The buffer with the frame of a datagram behind it.
unfoldable pub append_udp_frame : Bytes → Bytes → Result Bytes
append_udp_frame scratch d =
    if ltb max_udp_packet_size (length d)
    then err udp_too_large
    else ok (scratch ++ (to_be_bytes (length d % u32_mod) ++ d))

-- The bytes of the single write for one datagram.
unfoldable pub write_udp_frame : Bytes → Result Bytes
unfolding append_udp_frame
write_udp_frame d = append_udp_frame [] d

unfoldable pub append_udp_frames : Bytes → List Bytes → Result Bytes
unfolding append_udp_frame
append_udp_frames scratch [] = ok scratch
append_udp_frames scratch (d ∷ ds) = do s ← append_udp_frame scratch d; append_udp_frames s ds

-- The bytes of the single write for a batch.
unfoldable pub write_udp_frames : List Bytes → Result Bytes
unfolding append_udp_frames
write_udp_frames ds = append_udp_frames [] ds

-- `read_udp_frame_into`, on the bytes that the stream delivers before its end: the datagram and the
-- rest, or nothing at a clean end.
unfoldable pub read_udp_frame : Bytes → Result (Option (Bytes × Bytes))
read_udp_frame [] = ok none
read_udp_frame (a ∷ b ∷ c ∷ d ∷ rest) =
    let len = from_be_bytes a b c d in
    if ltb max_udp_packet_size len
    then err udp_too_large
    else if ltb (length rest) len
    then err udp_truncated
    else ok (some (take len rest, drop len rest))
read_udp_frame _ = err udp_truncated

abbrev pub cons_frame : Bytes → List Bytes × Bytes → Result (List Bytes × Bytes)
cons_frame d (ds, buf) = ok (d ∷ ds, buf)

-- The inner loop of `read_batch`: the complete frames at the front of the buffer, at most as many
-- as the limit, and what is left of the buffer.
unfoldable pub parse_frames : ℕ → Bytes → Result (List Bytes × Bytes)
parse_frames (suc limit) (a ∷ b ∷ c ∷ d ∷ rest) =
    let len = from_be_bytes a b c d in
    let more = parse_frames limit (drop len rest) in
    if ltb max_udp_packet_size len
    then err udp_too_large
    else if ltb (length rest) len
    then ok ([], a ∷ b ∷ c ∷ d ∷ rest)
    else more >>= cons_frame (take len rest)
parse_frames limit buf = ok ([], buf)

-- A batch, with the buffer and the reader after it.
abbrev pub Batch : Type 0
Batch = List Bytes × Bytes × List Bytes

abbrev pub end_of_stream : Bytes → Result Batch
end_of_stream [] = ok ([], [], [])
end_of_stream (b ∷ buf) = err udp_truncated

-- `read_batch`: the chunk of each round of the outer loop is the head of the list.
unfoldable pub read_batch : ℕ → Bytes → List Bytes → Result Batch
unfolding parse_frames
read_batch limit buf [] = do
  (ds, left) ← parse_frames limit buf
  if is_empty ds then end_of_stream left else ok (ds, left, [])
read_batch limit buf (chunk ∷ chunks) = do
  (ds, left) ← parse_frames limit buf
  if is_empty ds
      then if is_empty chunk then end_of_stream left else read_batch limit (left ++ chunk) chunks
      else ok (ds, left, chunk ∷ chunks)

-- What was forwarded before the end of the loop, in front of what it forwards later.
abbrev pub prepend :
    List Bytes → Option (List Bytes × Option Error) → Option (List Bytes × Option Error)
prepend ds none = none
prepend ds (some (later, end)) = some (ds ++ later, end)

-- The read side of the loop on a UDP work connection (`handle_udp_work_conn` of
-- crates/rfrps/src/udp.rs): the datagrams of all batches until the stream ends, in their order, and
-- the error that ends the loop, if one does. No result means no fuel.
unfoldable pub receive_all : ℕ → ℕ → Bytes → List Bytes → Option (List Bytes × Option Error)
unfolding read_batch
receive_all zero limit buf chunks = none
receive_all (suc fuel) limit buf chunks = elim (read_batch limit buf chunks) [
  | err e ↦ some ([], some e)
  | ok (ds, left, later) ↦
      let more = receive_all fuel limit left later in
      if is_empty ds then some ([], none) else prepend ds more
]
