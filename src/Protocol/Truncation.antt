-- ===== src/Protocol/Truncation.antt =====
-- `ReadMessage` takes one `Read` for the whole body, which may give less than all of it.
use log_shipper.Base.{
  ℕ, zero, suc, ◌-◌, ◌%◌, ◌≤◌, ◌<◌, ◌≡◌, refl, none, List, [], ◌∷◌, ◌++◌, arith, append_assoc,
}
use log_shipper.Base.Lists.{
  length, take, drop, replicate, length-append, length-take, length-drop, take_all, drop_all,
  take-append_of_le, drop-append_of_le,
}
use log_shipper.Protocol.Input.{Arrival, chunk, read, conn_read, put_back}
use log_shipper.Protocol.Frame.{put_uint32}
use log_shipper.Protocol.{Message, Codec, frame, uint32_mod, read_message}
use log_shipper.Protocol.Stream.{holding, header_size}

-- What of a body fits into the buffer behind its size.
abbrev pub first_part : ℕ
first_part = 4092

read_header_chunk :
    (n : ℕ) (zs : List ℕ) (rest : List Arrival)
    → read 4 (holding [] (chunk (put_uint32 n ++ zs) ∷ rest))
      ≡ ((put_uint32 n, none), holding (take first_part zs) (put_back (drop first_part zs) rest))
unfolding read conn_read put_uint32
read_header_chunk n zs rest = refl

read_short :
    (room : ℕ) (xs : List ℕ) (rest : List Arrival)
    → 0 < length xs
    → length xs ≤ room
    → read room (holding xs rest) ≡ ((xs, none), holding [] rest)
unfolding read
read_short room [] rest h k = absurd (omega arith)
read_short zero (x ∷ xs) rest h k = absurd (omega arith)
read_short (suc room) (x ∷ xs) rest h k =
    rw (take_all room xs (omega arith), drop_all room xs (omega arith))

put_back_some :
    (zs : List ℕ) (rest : List Arrival) → 0 < length zs → put_back zs rest ≡ chunk zs ∷ rest
put_back_some [] rest h = absurd (omega arith)
put_back_some (z ∷ zs) rest h = refl

-- Let the buffer be empty, and a frame arrive in one piece, with a body of more than 4092 bytes. The
-- message is not read whole, though all its bytes are there: its end is taken for zeros, and is left
-- in the stream to be read as the size of the next message.
pub read_message_truncates :
    (c : Codec Message) (body ys : List ℕ) (rest : List Arrival)
    → first_part < length body
    → length body < uint32_mod
    → read_message c (holding [] (chunk (frame body ++ ys) ∷ rest)) ≡ (
      c.unmarshal (take first_part body ++ replicate (length body - first_part) 0),
      holding [] (chunk (drop first_part body ++ ys) ∷ rest),
    )
unfolding read_message
read_message_truncates c body ys rest h k =
    let size = length body % uint32_mod in
    let same : size ≡ length body = omega arith in
    let taken : length (take first_part body) ≡ first_part =
      omega (arith, length-take first_part body) in
    let left : 0 < length (drop first_part body ++ ys) =
      omega (arith, length-append (drop first_part body) ys, length-drop first_part body) in
    rw (
      append_assoc (put_uint32 size) body ys,
      read_header_chunk size (body ++ ys) rest,
      header_size size (omega arith),
      same,
      take-append_of_le first_part body ys (omega arith),
      drop-append_of_le first_part body ys (omega arith),
      put_back_some (drop first_part body ++ ys) rest left,
      read_short (length body) (take first_part body) _ (omega (arith, taken))
          (omega (arith, taken)),
      taken,
    )
