-- ===== src/Protocol/Tests.antt =====
-- The theorems on framed messages at concrete ones, and runs of the reader and the handshake.
use log_shipper.Base.{true, ℕ, ◌-◌, ◌≡◌, refl, false, none, some, List, [], ◌∷◌, ◌++◌, map, arith}
use log_shipper.Base.Lists.{length, take, drop, replicate}
use log_shipper.Protocol.Input.{io, chunk, broken, stays, Reader, read, conn_read}
use log_shipper.Protocol.Frame.{put_uint32, uint32}
use log_shipper.Protocol.{
  Message, frame, read_message, wait_for, wait_for_ok, write, write_message, write_new_message,
  write_protobuf, message_to_protobuf,
}
use log_shipper.Protocol.Stream.{
  holding, open_writer, write_messages, read_messages, received, read_messages-write_messages,
}
use log_shipper.Protocol.Truncation.{first_part, read_message_truncates}
use log_shipper.Protocol.Channel.{
  delivered, failed, read_to_channel, EndsIf, read_to_channel-EndsIf,
}
use log_shipper.Protocol.Sample.{words, words-plain, words-RoundTrips}
use log_shipper.Protocol.Outgoing.{write_from_channel, read_to_channel-write_from_channel}

abbrev hello : Message
hello = record { command = "HELLO"; payload = [] }

abbrev log_message : Message
log_message = record { command = "TMSG"; payload = 104 ∷ 105 ∷ [] }

-- A frame of three bytes behind its size.
write_messages_test :
    write_messages words (open_writer []) (log_message ∷ [])
    ≡ (none, open_writer (3 ∷ 0 ∷ 0 ∷ 0 ∷ 3 ∷ 104 ∷ 105 ∷ []))
unfolding write_messages write_message message_to_protobuf write_protobuf write put_uint32 words
write_messages_test = refl

-- A frame that arrives in two pieces is not put together: the missing byte is read as zero, and
-- the byte itself as the size of a next frame.
read_message_split :
    read_message words (holding [] (chunk (3 ∷ 0 ∷ 0 ∷ 0 ∷ 3 ∷ 104 ∷ []) ∷ chunk (105 ∷ []) ∷ []))
    ≡ (
      (record { command = "TMSG"; payload = 104 ∷ 0 ∷ [] }, none),
      holding [] (chunk (105 ∷ []) ∷ []),
    )
unfolding read_message read conn_read uint32 words
read_message_split = refl

read_messages-write_messages_example :
    read_messages words 2 (
      holding []
        (chunk (write_messages words (open_writer []) (hello ∷ log_message ∷ [])).1.written ∷ []))
    ≡ (map received (hello ∷ log_message ∷ []), holding [] [])
unfolding write_messages write_message message_to_protobuf write_protobuf write put_uint32 words
read_messages-write_messages_example =
    read_messages-write_messages words words-RoundTrips hello (log_message ∷ []) [] refl
      (omega arith)

read_to_channel-write_from_channel_example :
    read_to_channel words 3 (
      holding [] (
        chunk (write_from_channel words (open_writer []) (hello ∷ log_message ∷ [])).1.written
        ∷ []))
    ≡ some (delivered hello ∷ delivered log_message ∷ [])
unfolding write_from_channel write_message message_to_protobuf write_protobuf write put_uint32 words
read_to_channel-write_from_channel_example =
    read_to_channel-write_from_channel words words-RoundTrips hello (log_message ∷ []) refl
      (omega arith)

abbrev noisy : Reader
noisy = holding [] (chunk (3 ∷ 0 ∷ 0 ∷ 0 ∷ 3 ∷ 104 ∷ 105 ∷ []) ∷ broken (io 7) ∷ [])

read_to_channel_test :
    read_to_channel words 10 noisy ≡ some (delivered log_message ∷ failed (io 7) ∷ [])
unfolding read_to_channel read_message read conn_read uint32 words
read_to_channel_test = refl

read_to_channel-EndsIf_example : EndsIf true (read_to_channel words 10 noisy)
read_to_channel-EndsIf_example = read_to_channel-EndsIf words 10 noisy words-plain (omega arith)

-- An end that closed its connection reads errors for ever.
closed_test : read_to_channel words 10 (holding [] (chunk (3 ∷ 0 ∷ []) ∷ stays (io 9) ∷ [])) ≡ none
unfolding read_to_channel read_message read conn_read uint32 words
closed_test = refl

-- A large body behind a size that came alone is read straight from the connection, and whole.
big_read :
    let body : List ℕ = replicate 5000 1 in
    (read_message words (holding [] (chunk (put_uint32 5000) ∷ chunk body ∷ [])))
    ≡ (words.unmarshal body, holding [] [])
unfolding read_message read conn_read put_uint32 uint32 words
big_read = refl

abbrev long_body : List ℕ
long_body = replicate 5000 1

read_message_truncates_example :
    read_message words (holding [] (chunk (frame long_body ++ []) ∷ [])) ≡ (
      words.unmarshal (take first_part long_body ++ replicate (length long_body - first_part) 0),
      holding [] (chunk (drop first_part long_body ++ []) ∷ []),
    )
read_message_truncates_example =
    read_message_truncates words long_body [] [] (omega arith) (omega arith)

-- An answer that is not OK is refused.
wait_for_ok_test :
    (wait_for_ok words
      (holding [] (chunk (write_new_message words (open_writer []) "HELLO" []).1.written ∷ []))).0
    ≡ false
unfolding wait_for_ok wait_for read_message read conn_read uint32 write_new_message write_message
    message_to_protobuf write_protobuf write put_uint32 words
wait_for_ok_test = refl
