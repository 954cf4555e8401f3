-- ===== src/Protocol/Handshake.antt =====
-- protocol/protocol.go: the words of the handshake, sent by one end and awaited by the other.
use log_shipper.Base.{ℕ, ◌≤◌, ◌≡◌, refl, Option, none, some, List, [], ◌∷◌, map, String, str_eq}
use log_shipper.Base.Lists.{length}
use log_shipper.Protocol.Input.{Fault, Arrival, chunk, Reader, buffer_size}
use log_shipper.Protocol.{
  Message, Codec, RoundTrips, Writer, write_message, write_new_message, read_message, wait_for,
}
use log_shipper.Protocol.Stream.{
  holding, open_writer, write_messages, after_write, read_messages, received,
  read_messages-write_messages,
}

pub write_one :
    (c : Codec Message) (w : Writer) (m : Message)
    → write_messages c w (m ∷ []) ≡ write_message c w m
unfolding write_messages
write_one c w m = go (write_message c w m)
  where
    go : (x : Option Fault × Writer) → after_write (λ w'. (none, w')) x ≡ x
    go (some e, w') = refl
    go (none, w') = refl

read_one :
    (c : Codec Message) (r : Reader) (m : Message) (r' : Reader)
    → read_messages c 1 r ≡ (map received (m ∷ []), r')
    → read_message c r ≡ (received m, r')
unfolding read_messages
read_one c r m r' e =
    let head : (read_message c r).0 ≡ received m = cc in
    let rest : (read_message c r).1 ≡ r' = cc in λ i. (head i, rest i)

-- A word that is sent without a fault and arrives in one piece of at most 4096 bytes is accepted
-- exactly if it is the word that is awaited, whatever its payload, and is taken off the stream.
pub wait_for-write_new_message :
    (c : Codec Message)
    → RoundTrips c
    → (word awaited : String) (payload : List ℕ) (rest : List Arrival)
    → (write_new_message c (open_writer []) word payload).0 ≡ none
    → length (write_new_message c (open_writer []) word payload).1.written ≤ buffer_size
    → wait_for awaited c
        (holding [] (chunk (write_new_message c (open_writer []) word payload).1.written ∷ rest))
      ≡ (str_eq word awaited, holding [] rest)
unfolding write_new_message wait_for
wait_for-write_new_message c trip word awaited payload rest e h = rw got
  where
    m : Message
    m = record { command = word; payload = payload }

    all_read :
        read_messages c 1 (holding [] (chunk (write_message c (open_writer []) m).1.written ∷ rest))
        ≡ (map received (m ∷ []), holding [] rest)
    all_read = rw (write_one c (open_writer []) m) at (
        read_messages-write_messages c trip m [] rest (rw (write_one c (open_writer []) m) e)
          (rw (write_one c (open_writer []) m) h))

    got :
        read_message c (holding [] (chunk (write_message c (open_writer []) m).1.written ∷ rest))
        ≡ (received m, holding [] rest)
    got = read_one c _ m (holding [] rest) all_read
