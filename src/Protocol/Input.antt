-- ===== src/Protocol/Input.antt =====
-- The `bufio.Reader` that protocol/protocol.go reads through, over a TCP connection: a buffer of
-- 4096 bytes, filled by at most one read of the connection for each call.
use log_shipper.Base.{
  ℕ, zero, suc, ◌-◌, ◌≤◌, ◌<◌, ◌≡◌, refl, Option, none, some, List, [], ◌∷◌, ◌++◌, arith, leb,
  leb_of_lt, if◌then◌else◌, append-nil,
}
use log_shipper.Base.Lists.{
  length, take, drop, replicate, take-append, drop-append, take_all, drop_all,
}

-- The errors of reading and writing: the end of the stream, one of the network, one of protobuf.
pub data Fault : Type 0 where
  eof : Fault
  io : ℕ → Fault
  malformed : ℕ → Fault

-- What the connection will deliver: bytes that one read can take together, an error of one read, or
-- an error that stays, as after the `Close` of this end, and that every later read meets too. After
-- the last of them every read meets the end of the stream.
pub data Arrival : Type 0 where
  chunk : List ℕ → Arrival
  broken : Fault → Arrival
  stays : Fault → Arrival

pub record Reader : Type 0 where
  pub buffered : List ℕ
  pub arrivals : List Arrival

abbrev pub buffer_size : ℕ
buffer_size = 4096

-- What a read leaves of a chunk.
abbrev pub put_back : List ℕ → List Arrival → List Arrival
put_back [] rest = rest
put_back (b ∷ bs) rest = chunk (b ∷ bs) ∷ rest

-- `conn.Read(p)` with room for `room` bytes.
unfoldable pub conn_read : ℕ → List Arrival → (List ℕ × Option Fault) × List Arrival
conn_read room [] = (([], some eof), [])
conn_read room (chunk bs ∷ rest) = ((take room bs, none), put_back (drop room bs) rest)
conn_read room (broken e ∷ rest) = (([], some e), rest)
conn_read room (stays e ∷ rest) = (([], some e), stays e ∷ rest)

-- A read with an empty buffer: straight into `p` if that is large, and through the buffer else. The
-- connection gives no bytes beside an error, so none is kept for later.
read_through : ℕ → List Arrival → (List ℕ × Option Fault) × Reader
read_through room rest =
    if leb buffer_size room
    then (let (result, rest') = conn_read room rest in
        (result, record { buffered = []; arrivals = rest' }))
    else (let ((got, fault), rest') = conn_read buffer_size rest in
        ((take room got, fault), record { buffered = drop room got; arrivals = rest' }))

read_from : ℕ → List ℕ → List Arrival → (List ℕ × Option Fault) × Reader
read_from zero bs rest = (([], none), record { buffered = bs; arrivals = rest })
read_from (suc room) [] rest = read_through (suc room) rest
read_from (suc room) (b ∷ bs) rest = (
  (take (suc room) (b ∷ bs), none),
  record { buffered = drop (suc room) (b ∷ bs); arrivals = rest },
)

-- `reader.Read(p)` with `len(p) = room`: what it put into `p`, and its error.
unfoldable pub read : ℕ → Reader → (List ℕ × Option Fault) × Reader
unfolding read_from read_through
read room r = read_from room r.buffered r.arrivals

-- A slice that `make` filled with zeros, after a read of the bytes `got` into it.
abbrev pub fill_buffer : ℕ → List ℕ → List ℕ
fill_buffer size got = got ++ replicate (size - length got) 0

-- A read of no more than the buffer holds.
pub read_exact :
    (xs ys : List ℕ) (rest : List Arrival)
    → read (length xs) (record { buffered = xs ++ ys; arrivals = rest })
      ≡ ((xs, none), record { buffered = ys; arrivals = rest })
unfolding read
read_exact [] ys rest = refl
read_exact (x ∷ xs) ys rest = rw (take-append xs ys, drop-append xs ys)

conn_read_all :
    (room : ℕ) (bs : List ℕ) (rest : List Arrival)
    → length bs ≤ room
    → conn_read room (chunk bs ∷ rest) ≡ ((bs, none), rest)
unfolding conn_read
conn_read_all room bs rest h = rw (take_all room bs h, drop_all room bs h)

-- A read with an empty buffer first takes a chunk whole, if the buffer has room for it.
pub read_fills :
    (room b : ℕ) (bs : List ℕ) (rest : List Arrival)
    → suc room < buffer_size
    → length (b ∷ bs) ≤ buffer_size
    → read (suc room) (record { buffered = []; arrivals = chunk (b ∷ bs) ∷ rest })
      ≡ read (suc room) (record { buffered = b ∷ bs; arrivals = rest })
unfolding read
read_fills room b bs rest h k =
    rw (leb_of_lt buffer_size (suc room) h, conn_read_all buffer_size (b ∷ bs) rest k)

pub fill_buffer_full : (xs : List ℕ) → fill_buffer (length xs) xs ≡ xs
fill_buffer_full xs =
    let none_left : length xs - length xs ≡ 0 = omega arith in rw none_left (append-nil xs)
