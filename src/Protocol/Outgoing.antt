-- ===== src/Protocol/Outgoing.antt =====
-- protocol/protocol.go: `WriteFromChannel`, which writes what it gets from one channel and sends what
-- fails to another.
use mathlib.Core.Path.{subst}
use log_shipper.Base.{◌+◌, ◌≤◌, ◌≡◌, refl, ap, sym, arith, Option, none, some, List, [], ◌∷◌, map}
use log_shipper.Base.Lists.{length}
use log_shipper.Protocol.Input.{Fault, chunk, buffer_size}
use log_shipper.Protocol.{Message, Codec, RoundTrips, Writer, write_message}
use log_shipper.Protocol.Stream.{holding, open_writer, write_messages, after_write}
use log_shipper.Protocol.Channel.{delivered, read_to_channel, read_to_channel-write_messages}

note_fault : Option Fault → List Fault → List Fault
note_fault none faults = faults
note_fault (some fault) faults = fault ∷ faults

-- The loop over so many messages of the channel, with the faults that it sends on.
unfoldable pub write_from_channel : Codec Message → Writer → List Message → List Fault × Writer
unfolding note_fault
write_from_channel c w [] = ([], w)
write_from_channel c w (m ∷ ms) =
    let wrote = write_message c w m in
    let rest = write_from_channel c wrote.1 ms in (note_fault wrote.0 rest.0, rest.1)

all_written :
    (c : Codec Message) (ms : List Message) (wrote : Option Fault × Writer)
    → ((w : Writer)
        → (write_from_channel c w ms).0 ≡ []
        → write_messages c w ms ≡ (none, (write_from_channel c w ms).1))
    → note_fault wrote.0 (write_from_channel c wrote.1 ms).0 ≡ []
    → after_write (λ w. write_messages c w ms) wrote ≡ (none, (write_from_channel c wrote.1 ms).1)
unfolding note_fault
all_written c ms (some fault, w) rest e = absurd (ground (arith, e))
all_written c ms (none, w) rest e = rest w e

-- With no fault it writes as if the messages were written one after the other.
write_from_channel-write_messages :
    (c : Codec Message) (ms : List Message) (w : Writer)
    → (write_from_channel c w ms).0 ≡ []
    → write_messages c w ms ≡ (none, (write_from_channel c w ms).1)
unfolding write_from_channel write_messages
write_from_channel-write_messages c [] w e = refl
write_from_channel-write_messages c (m ∷ ms) w e =
    all_written c ms (write_message c w m) (write_from_channel-write_messages c ms) e

-- The messages that go into the channel of one end, when no write of them fails and their frames
-- arrive in one piece of at most 4096 bytes, are those that come out of the channel of the other
-- end, in their order, and then its loop ends.
pub read_to_channel-write_from_channel :
    (c : Codec Message)
    → RoundTrips c
    → (m : Message) (ms : List Message) → (write_from_channel c (open_writer []) (m ∷ ms)).0 ≡ []
    → length (write_from_channel c (open_writer []) (m ∷ ms)).1.written ≤ buffer_size
    → read_to_channel c
        (length (m ∷ ms) + 1)
        (holding [] (chunk (write_from_channel c (open_writer []) (m ∷ ms)).1.written ∷ []))
      ≡ some (map delivered (m ∷ ms))
read_to_channel-write_from_channel c trip m ms e h =
    let whole = write_from_channel-write_messages c (m ∷ ms) (open_writer []) e in
    let same = ap (λ x. x.1) whole in
    subst
      (λ w.
        read_to_channel c (length (m ∷ ms) + 1) (holding [] (chunk w.written ∷ []))
        ≡ some (map delivered (m ∷ ms)))
      same
      (read_to_channel-write_messages c trip m ms (ap (λ x. x.0) whole)
        (subst (λ w. length w.written ≤ buffer_size) (sym same) h))
