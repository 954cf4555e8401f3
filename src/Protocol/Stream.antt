-- ===== src/Protocol/Stream.antt =====
-- Messages that are written are read back, as long as they arrive together and fit the buffer.
use log_shipper.Base.{
  ℕ, zero, suc, ◌%◌, ◌≤◌, ◌<◌, ◌≡◌, refl, sym, ◌∙◌, Option, none, some, List, [], ◌∷◌, ◌++◌, map,
  arith, append-nil, append_assoc,
}
use log_shipper.Base.Lists.{length, length-append}
use log_shipper.Protocol.Input.{
  Fault, Arrival, chunk, Reader, buffer_size, read, conn_read, fill_buffer, fill_buffer_full,
  read_exact, read_fills,
}
use log_shipper.Protocol.Frame.{put_uint32, uint32, uint32-put_uint32}
use log_shipper.Protocol.{
  Message, Codec, RoundTrips, Writer, Received, frame, uint32_mod, write, write_protobuf,
  write_message, read_message, send_marshalled, message_to_protobuf,
}

abbrev pub holding : List ℕ → List Arrival → Reader
holding bs rest = record { buffered = bs; arrivals = rest }

read_header :
    (n : ℕ) (ys : List ℕ) (rest : List Arrival)
    → read 4 (holding (put_uint32 n ++ ys) rest) ≡ ((put_uint32 n, none), holding ys rest)
unfolding put_uint32
read_header n ys rest = read_exact (put_uint32 n) ys rest

pub header_size : (n : ℕ) → n < uint32_mod → uint32 (fill_buffer 4 (put_uint32 n)) ≡ n
unfolding put_uint32
header_size n h = rw (fill_buffer_full (put_uint32 n)) (uint32-put_uint32 n h)

-- One frame at the front of the buffer.
pub read_message-frame :
    (c : Codec Message) (body ys : List ℕ) (rest : List Arrival)
    → length body < uint32_mod
    → read_message c (holding (frame body ++ ys) rest) ≡ (c.unmarshal body, holding ys rest)
unfolding read_message
read_message-frame c body ys rest h =
    let size = length body % uint32_mod in
    let same : size ≡ length body = omega arith in
    rw (
      append_assoc (put_uint32 size) body ys,
      read_header size (body ++ ys) rest,
      header_size size (omega arith),
      same,
      read_exact body ys rest,
      fill_buffer_full body,
    )

-- The frame's writer writes each message, up to the first that fails.
abbrev pub after_write :
    (Writer → Option Fault × Writer) → Option Fault × Writer → Option Fault × Writer
after_write next (some e, w) = (some e, w)
after_write next (none, w) = next w

unfoldable pub write_messages : Codec Message → Writer → List Message → Option Fault × Writer
write_messages c w [] = (none, w)
write_messages c w (m ∷ ms) = after_write (λ w'. write_messages c w' ms) (write_message c w m)

unfoldable pub read_messages : Codec Message → ℕ → Reader → List Received × Reader
read_messages c zero r = ([], r)
read_messages c (suc n) r =
    let (got, r') = read_message c r in
    let (others, r'') = read_messages c n r' in (got ∷ others, r'')

abbrev pub received : Message → Received
received m = (m, none)

-- What was written can be read from the buffer, with anything behind it.
abbrev Readable : Codec Message → List Message → List ℕ → List ℕ → Type 0
Readable c ms before after =
    (bs : List ℕ) × (after ≡ before ++ bs)
    × (length bs < uint32_mod
        → (ys : List ℕ) (rest : List Arrival)
        → read_messages c (length ms) (holding (bs ++ ys) rest)
          ≡ (map received ms, holding ys rest))

abbrev pub open_writer : List ℕ → Writer
open_writer bs = record { written = bs; outcomes = [] }

Readable-cons :
    (c : Codec Message)
    → RoundTrips c
    → (m : Message) (ms : List Message) (before body after : List ℕ) → c.marshal m ≡ some body
    → Readable c ms (before ++ frame body) after
    → Readable c (m ∷ ms) before after
unfolding read_messages
Readable-cons c trip m ms before body after marshalled (bs, eq, reads) =
    (frame body ++ bs, eq ∙ append_assoc before (frame body) bs, both)
  where
    both :
        length (frame body ++ bs) < uint32_mod
        → (ys : List ℕ) (rest : List Arrival)
        → read_messages c (suc (length ms)) (holding ((frame body ++ bs) ++ ys) rest)
          ≡ (map received (m ∷ ms), holding ys rest)
    both h ys rest =
        let total = length-append (frame body) bs in
        let first = length-append (put_uint32 (length body % uint32_mod)) body in
        rw (
          append_assoc (frame body) bs ys,
          read_message-frame c body (bs ++ ys) rest (omega (arith, total, first)),
          trip m body marshalled,
          reads (omega (arith, total)) ys rest,
        )

write_messages-Readable :
    (c : Codec Message)
    → RoundTrips c
    → (ms : List Message) (before : List ℕ) → (write_messages c (open_writer before) ms).0 ≡ none
    → Readable c ms before (write_messages c (open_writer before) ms).1.written
unfolding write_messages write_message message_to_protobuf write_protobuf write read_messages
write_messages-Readable c trip [] before e = ([], sym (append-nil before), λ h ys rest. refl)
write_messages-Readable c trip (m ∷ ms) before e =
    go (c.marshal m) refl e (λ body. write_messages-Readable c trip ms (before ++ frame body))
  where
    next : Writer → Option Fault × Writer
    next w = write_messages c w ms

    go :
        (o : Option (List ℕ))
        → c.marshal m ≡ o
        → (after_write next (send_marshalled (open_writer before) o)).0 ≡ none
        → ((body : List ℕ)
            → (next (open_writer (before ++ frame body))).0 ≡ none
            → Readable c ms
                (before ++ frame body)
                (next (open_writer (before ++ frame body))).1.written)
        → Readable c
            (m ∷ ms)
            before
            (after_write next (send_marshalled (open_writer before) o)).1.written
    go none marshalled e' ih = cc
    go (some body) marshalled e' ih =
        Readable-cons c trip m ms before body _ marshalled (ih body e')

first_read :
    (c : Codec Message) (b : ℕ) (bs : List ℕ) (rest : List Arrival)
    → length (b ∷ bs) ≤ buffer_size
    → read_message c (holding [] (chunk (b ∷ bs) ∷ rest)) ≡ read_message c (holding (b ∷ bs) rest)
unfolding read_message
first_read c b bs rest h = rw (read_fills 3 b bs rest (omega arith) h)

-- Bytes that hold a message are not empty: at the end of the stream a read fails.
Reads : Codec Message → Message → List Message → List ℕ → Type 0
Reads c m ms bs =
    (ys : List ℕ) (rest : List Arrival)
    → read_messages c (length (m ∷ ms)) (holding (bs ++ ys) rest)
      ≡ (map received (m ∷ ms), holding ys rest)

no_message_at_end : (c : Codec Message) (m : Message) (ms : List Message) → ¬ Reads c m ms []
unfolding Reads read_messages read_message read conn_read
no_message_at_end c m ms reads = cc (reads [] [])

read_messages_chunk :
    (c : Codec Message) (m : Message) (ms : List Message) (bs : List ℕ) (rest : List Arrival)
    → Reads c m ms bs
    → length bs ≤ buffer_size
    → read_messages c (length (m ∷ ms)) (holding [] (chunk bs ∷ rest))
      ≡ (map received (m ∷ ms), holding [] rest)
unfolding Reads read_messages
read_messages_chunk c m ms [] rest reads h = absurd (no_message_at_end c m ms reads)
read_messages_chunk c m ms (b ∷ bs) rest reads h =
    rw (first_read c b bs rest h) (rw (append-nil (b ∷ bs)) at (reads [] rest))

-- Messages that a connection takes without a fault, and that arrive in one piece of at most 4096
-- bytes, are read back one by one, each without an error, and no byte is left of them.
pub read_messages-write_messages :
    (c : Codec Message)
    → RoundTrips c
    → (m : Message) (ms : List Message) (rest : List Arrival)
    → (write_messages c (open_writer []) (m ∷ ms)).0 ≡ none
    → length (write_messages c (open_writer []) (m ∷ ms)).1.written ≤ buffer_size
    → read_messages c
        (length (m ∷ ms))
        (holding [] (chunk (write_messages c (open_writer []) (m ∷ ms)).1.written ∷ rest))
      ≡ (map received (m ∷ ms), holding [] rest)
unfolding Reads
read_messages-write_messages c trip m ms rest e h =
    let (bs, eq, reads) = write_messages-Readable c trip (m ∷ ms) [] e in
    let size = rw eq at h in
    rw eq (read_messages_chunk c m ms bs rest (reads (omega (arith, size))) size)
