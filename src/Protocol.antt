-- ===== src/Protocol.antt =====
-- protocol/protocol.go: framed messages over a connection, and the handshake words.
-- The protobuf library is a parameter, `Codec`.
pub mod Input
pub mod Frame
pub mod Stream
pub mod Truncation
pub mod Channel
pub mod Handshake
pub mod Outgoing
pub mod Sample
mod Tests
use log_shipper.Base.{
  ℕ, zero, suc, ◌+◌, ◌-◌, ◌%◌, ◌^◌, ◌≡◌, Bool, true, false, not, ◌||◌, Option, none, some, List, [],
  ◌∷◌, ◌++◌, String, if◌then◌else◌, str_eq,
}
use log_shipper.Base.Lists.{length, take}
use Input.{Fault, malformed, eof, Reader, read, fill_buffer}
use Frame.{put_uint32, uint32}

abbrev pub command_hello : String
command_hello = "HELLO"

abbrev pub command_ok : String
command_ok = "OK"

abbrev pub command_source_message : String
command_source_message = "SMSG"

abbrev pub command_target_log : String
command_target_log = "TMSG"

abbrev pub command_bye : String
command_bye = "BYE"

pub record Message : Type 0 where
  pub command : String
  pub payload : List ℕ

-- `&Message{}`.
abbrev pub empty_message : Message
empty_message = record { command = ""; payload = [] }

-- `proto.Marshal` and `proto.Unmarshal` at one type of message. Unmarshal fills the message as far
-- as it comes, and tells whether it failed.
pub record Codec (M : Type 0) : Type 0 where
  pub marshal : M → Option (List ℕ)
  pub unmarshal : List ℕ → M × Option Fault

-- What is marshalled is read back.
abbrev pub RoundTrips : {M : Type 0} → Codec M → Type 0
RoundTrips {M} c =
    (m : M) (bytes : List ℕ) → c.marshal m ≡ some bytes → c.unmarshal bytes ≡ (m, none)

-- A connection to write to: the bytes that it took, and what the next writes will do, `none` for a
-- success and `some` for a fault after some bytes. With no outcome left, a write succeeds.
pub record Writer : Type 0 where
  pub written : List ℕ
  pub outcomes : List (Option (ℕ × Fault))

write_outcome : Writer → List ℕ → List (Option (ℕ × Fault)) → Option Fault × Writer
write_outcome w bytes [] = (none, record w { written = w.written ++ bytes })
write_outcome w bytes (none ∷ rest) =
    (none, record { written = w.written ++ bytes; outcomes = rest })
write_outcome w bytes (some (n, fault) ∷ rest) =
    (some fault, record { written = w.written ++ take n bytes; outcomes = rest })

unfoldable pub write : Writer → List ℕ → Option Fault × Writer
unfolding write_outcome
write w bytes = write_outcome w bytes w.outcomes

abbrev pub uint32_mod : ℕ
uint32_mod = 2 ^ 32

-- The bytes of one frame, as `WriteProtobuf` puts them together.
abbrev pub frame : List ℕ → List ℕ
frame body = put_uint32 (length body % uint32_mod) ++ body

unfoldable pub write_protobuf : Writer → List ℕ → Option Fault × Writer
write_protobuf w body = write w (frame body)

-- The error of a message that cannot be marshalled.
abbrev pub marshal_fault : Fault
marshal_fault = malformed 0

unfoldable pub message_to_protobuf : Codec Message → Message → Option (List ℕ)
message_to_protobuf c m = c.marshal m

send_marshalled : Writer → Option (List ℕ) → Option Fault × Writer
send_marshalled w none = (some marshal_fault, w)
send_marshalled w (some body) = write_protobuf w body

unfoldable pub write_message : Codec Message → Writer → Message → Option Fault × Writer
unfolding message_to_protobuf send_marshalled
write_message c w m = send_marshalled w (message_to_protobuf c m)

unfoldable pub write_new_message : Codec Message → Writer → String → List ℕ → Option Fault × Writer
write_new_message c w command payload =
    write_message c w (record { command = command; payload = payload })

-- What `ReadMessage` returns: a message, which is there beside an error too, and the error.
abbrev pub Received : Type 0
Received = Message × Option Fault

-- The end of `ReadMessage`, after the read of the body.
decode_body : Codec Message → ℕ → (List ℕ × Option Fault) × Reader → Received × Reader
decode_body c size ((got, some e), r) = ((empty_message, some e), r)
decode_body c size ((got, none), r) = (c.unmarshal (fill_buffer size got), r)

-- And after the read of the size.
read_body : Codec Message → (List ℕ × Option Fault) × Reader → Received × Reader
unfolding decode_body
read_body c ((got, some e), r) = ((empty_message, some e), r)
read_body c ((got, none), r) =
    let size = uint32 (fill_buffer 4 got) in decode_body c size (read size r)

unfoldable pub read_message : Codec Message → Reader → Received × Reader
unfolding read_body
read_message c r = read_body c (read 4 r)

is_command : String → Received × Reader → Bool × Reader
is_command command ((m, some e), r) = (false, r)
is_command command ((m, none), r) = (str_eq m.command command, r)

unfoldable pub wait_for : String → Codec Message → Reader → Bool × Reader
unfolding is_command
wait_for command c r = is_command command (read_message c r)

unfoldable pub wait_for_hello : Codec Message → Reader → Bool × Reader
wait_for_hello = wait_for command_hello

unfoldable pub wait_for_ok : Codec Message → Reader → Bool × Reader
wait_for_ok = wait_for command_ok

unfoldable pub send_hello : Codec Message → Writer → Bool × Writer
send_hello c w =
    let (fault, w') = write_new_message c w command_hello [] in
    elim fault [ some _ ↦ (false, w') | none ↦ (true, w') ]

unfoldable pub send_ok : Codec Message → Writer → Writer
send_ok c w = (write_new_message c w command_ok []).1

unfoldable pub send_bye : Codec Message → Writer → Writer
send_bye c w = (write_new_message c w command_bye []).1
