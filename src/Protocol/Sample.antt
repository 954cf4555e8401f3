-- ===== src/Protocol/Sample.antt =====
-- A codec that the tests put in the place of the protobuf library.
use log_shipper.Base.{
  ℕ, ◌≢◌, String, Option, none, some, List, [], ◌∷◌, arith, ◌==◌, if◌then◌else◌, str_eq, eq_iff,
}
use log_shipper.Protocol.Input.{Fault, eof, malformed}
use log_shipper.Protocol.{Message, Codec, RoundTrips, empty_message}

-- A codec that knows four words: a byte for the word, and the payload.
encode : Message → Option (List ℕ)
encode m =
    if str_eq m.command "HELLO"
    then some (1 ∷ m.payload)
    else if str_eq m.command "OK"
    then some (2 ∷ m.payload)
    else if str_eq m.command "TMSG"
    then some (3 ∷ m.payload)
    else if str_eq m.command "SMSG"
    then some (4 ∷ m.payload)
    else none

word : ℕ → String
word tag =
    if tag == 1 then "HELLO" else if tag == 2 then "OK" else if tag == 3 then "TMSG" else "SMSG"

decode : List ℕ → Message × Option Fault
decode [] = (empty_message, some (malformed 1))
decode (tag ∷ payload) = (record { command = word tag; payload = payload }, none)

unfoldable pub words : Codec Message
unfolding encode decode word
words = record { marshal = encode; unmarshal = decode }

-- It reports no end of the stream.
pub words-plain : (bs : List ℕ) → (words.unmarshal bs).1 ≢ some eof
unfolding words
words-plain [] = λ e. cc
words-plain (tag ∷ payload) = λ e. cc

pub words-RoundTrips : RoundTrips words
unfolding words
words-RoundTrips m bytes e = ground (
  arith,
  eq_iff m.command "HELLO",
  eq_iff m.command "OK",
  eq_iff m.command "TMSG",
  eq_iff m.command "SMSG",
)
