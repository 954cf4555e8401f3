-- ===== src/Protocol/Channel.antt =====
-- protocol/protocol.go: `ReadToChannel`, which sends what it reads to one of two channels.
pub mod Progress
use mathlib.Core.Option
use log_shipper.Base.{
  Bool, true, false, ℕ, zero, suc, ◌+◌, ◌≤◌, ◌<◌, ◌≡◌, refl, ap, sym, ◌∙◌, ◌≢◌, Option, none, some,
  List, [], ◌∷◌, ◌++◌, map, arith, append-nil, inl, inr, ◌⊎◌,
}
use log_shipper.Base.Lists.{length, All}
use log_shipper.Protocol.Input.{
  Fault, eof, io, malformed, Arrival, chunk, stays, Reader, buffer_size, read, conn_read,
}
use log_shipper.Protocol.{Message, Codec, RoundTrips, Received, read_message, frame}
use log_shipper.Protocol.Stream.{
  holding, open_writer, write_messages, read_messages, received, read_messages-write_messages,
}
use Progress.{measure, is_ending, read_message-Goes, read_message-Stays}

-- What goes to the message channel and to the error channel, in the order of sending.
pub data Sent : Type 0 where
  delivered : Message → Sent
  failed : Fault → Sent

sent : Received → Sent
sent (m, some e) = failed e
sent (m, none) = delivered m

-- One round of the loop; the end of the stream ends it without a word to either channel.
after_read : (Reader → Option (List Sent)) → Received × Reader → Option (List Sent)
after_read next ((m, some eof), r) = some []
after_read next ((m, some (io n)), r) = Option.map (◌∷◌ (failed (io n))) (next r)
after_read next ((m, some (malformed n)), r) = Option.map (◌∷◌ (failed (malformed n))) (next r)
after_read next ((m, none), r) = Option.map (◌∷◌ (delivered m)) (next r)

-- The loop on fuel, with receivers that take what it sends: while they do not, a channel without a
-- buffer keeps it waiting in the send. `none` means that the fuel ran out.
unfoldable pub read_to_channel : Codec Message → ℕ → Reader → Option (List Sent)
unfolding after_read
read_to_channel c zero r = none
read_to_channel c (suc fuel) r = after_read (read_to_channel c fuel) (read_message c r)

abbrev pub IsNoEof : Sent → Type 0
IsNoEof s = s ≢ failed eof

-- The outcome of a loop that ends: what it sent, with no end of the stream among it.
abbrev pub Ends : Option (List Sent) → Type 0
Ends o = (out : List Sent) × (o ≡ some out) × All IsNoEof out

Ends-map : (s : Sent) (o : Option (List Sent)) → IsNoEof s → Ends o → Ends (Option.map (◌∷◌ s) o)
Ends-map s o ok_ (out, e, rest) = (s ∷ out, rw e, (ok_, rest))

after_read-Ends :
    (next : Reader → Option (List Sent)) (got : Received) (r : Reader)
    → ((got.1 ≡ some eof) ⊎ Ends (next r))
    → Ends (after_read next (got, r))
unfolding after_read
after_read-Ends next (m, some eof) r h = ([], refl, tt)
after_read-Ends next (m, some (io n)) r (inl e) = absurd (cc)
after_read-Ends next (m, some (io n)) r (inr h) = Ends-map _ _ (λ e. cc) h
after_read-Ends next (m, some (malformed n)) r (inl e) = absurd (cc)
after_read-Ends next (m, some (malformed n)) r (inr h) = Ends-map _ _ (λ e. cc) h
after_read-Ends next (m, none) r (inl e) = absurd (cc)
after_read-Ends next (m, none) r (inr h) = Ends-map _ _ (λ e. cc) h

-- Where the reads come to an end of the stream, and with fuel above what is left to read, the loop
-- ends.
pub read_to_channel-returns :
    (c : Codec Message) (fuel : ℕ) (r : Reader)
    → is_ending r.arrivals ≡ true
    → measure r < fuel
    → Ends (read_to_channel c fuel r)
unfolding read_to_channel
read_to_channel-returns c zero r p h = absurd (omega arith)
read_to_channel-returns c (suc fuel) r p h =
    after_read-Ends (read_to_channel c fuel) (read_message c r).0 (read_message c r).1
      (elim (read_message-Goes c r p) [
        | inl over ↦ inl over
        | inr less ↦
            inr (read_to_channel-returns c fuel (read_message c r).1 less.1 (omega (arith, less.0)))
      ])

after_read-none :
    (next : Reader → Option (List Sent)) (got : Received) (r : Reader)
    → got.1 ≢ some eof
    → next r ≡ none
    → after_read next (got, r) ≡ none
unfolding after_read
after_read-none next (m, some eof) r going e = absurd (going refl)
after_read-none next (m, some (io n)) r going e = rw e refl
after_read-none next (m, some (malformed n)) r going e = rw e refl
after_read-none next (m, none) r going e = rw e refl

-- Where an error of the connection stays instead, the loop reports it again and again, and no fuel
-- is enough.
read_to_channel-stays :
    (c : Codec Message) (fuel : ℕ) (r : Reader)
    → ((bs : List ℕ) → (c.unmarshal bs).1 ≢ some eof)
    → is_ending r.arrivals ≡ false
    → read_to_channel c fuel r ≡ none
unfolding read_to_channel
read_to_channel-stays c zero r plain h = refl
read_to_channel-stays c (suc fuel) r plain h =
    let step = read_message-Stays c r plain h in
    after_read-none (read_to_channel c fuel) (read_message c r).0 (read_message c r).1 step.0
      (read_to_channel-stays c fuel (read_message c r).1 plain step.1)

-- What becomes of the loop: it ends, or it does not end.
abbrev pub EndsIf : Bool → Option (List Sent) → Type 0
EndsIf true o = (out : List Sent) × (o ≡ some out) × All (λ s. s ≢ failed eof) out
EndsIf false o = o ≡ none

-- Let what the loop sends be taken, and let protobuf report no end of the stream of its own. With
-- whatever fuel above the bytes and arrivals that are left: if the reads of the connection come to
-- an end of the stream, the loop ends, and it has sent no end of the stream, so that the reader of
-- the error channel never learns that the stream is over. If they come to another error that stays,
-- as after the `Close` of this end, the loop does not end.
pub read_to_channel-EndsIf :
    (c : Codec Message) (fuel : ℕ) (r : Reader)
    → ((bs : List ℕ) → (c.unmarshal bs).1 ≢ some eof)
    → measure r < fuel
    → EndsIf (is_ending r.arrivals) (read_to_channel c fuel r)
read_to_channel-EndsIf c fuel r plain h = go (is_ending r.arrivals) refl
  where
    go : (ending : Bool) → is_ending r.arrivals ≡ ending → EndsIf ending (read_to_channel c fuel r)
    go true e = read_to_channel-returns c fuel r e h
    go false e = read_to_channel-stays c fuel r plain e

after_read-delivered :
    (next : Reader → Option (List Sent)) (m : Message) (got : Received × Reader) (r : Reader)
    → got ≡ (received m, r)
    → after_read next got ≡ Option.map (◌∷◌ (delivered m)) (next r)
unfolding after_read
after_read-delivered next m got r e = rw e

-- The loop sends the messages that `read_messages` reads, and goes on behind them.
-- The loop sends the messages that stand at the front of the stream, and goes on behind them.
read_to_channel-read_messages :
    (c : Codec Message) (fuel : ℕ) (ms : List Message) (r r' : Reader) (out : List Sent)
    → read_messages c (length ms) r ≡ (map received ms, r')
    → read_to_channel c fuel r' ≡ some out
    → read_to_channel c (length ms + fuel) r ≡ some (map delivered ms ++ out)
unfolding read_to_channel read_messages
read_to_channel-read_messages c fuel [] r r' out e h =
    let none_read : 0 + fuel ≡ fuel = omega arith in
    let same : r ≡ r' = ap (λ x. x.1) e in rw (none_read, same) h
read_to_channel-read_messages c fuel (m ∷ ms) r r' out e h =
    let got = read_message c r in
    let head : got.0 ≡ received m = cc in
    let tail : read_messages c (length ms) got.1 ≡ (map received ms, r') = ground arith in
    let more : suc (length ms) + fuel ≡ suc (length ms + fuel) = omega arith in
    let others = read_to_channel-read_messages c fuel ms got.1 r' out tail h in
    let first =
      after_read-delivered (read_to_channel c (length ms + fuel)) m got got.1
        (ap (λ x. (x, got.1)) head) in
    rw (more, first, others)

at_end : (c : Codec Message) → read_to_channel c 1 (holding [] []) ≡ some []
unfolding read_to_channel read_message read conn_read
at_end c = refl

-- What a connection took without a fault and the other end receives in one piece of at most 4096
-- bytes comes out of the message channel in the order of writing, and then the loop ends.
pub read_to_channel-write_messages :
    (c : Codec Message)
    → RoundTrips c
    → (m : Message) (ms : List Message) → (write_messages c (open_writer []) (m ∷ ms)).0 ≡ none
    → length (write_messages c (open_writer []) (m ∷ ms)).1.written ≤ buffer_size
    → read_to_channel c
        (length (m ∷ ms) + 1)
        (holding [] (chunk (write_messages c (open_writer []) (m ∷ ms)).1.written ∷ []))
      ≡ some (map delivered (m ∷ ms))
read_to_channel-write_messages c trip m ms e h =
    let whole = read_messages-write_messages c trip m ms [] e h in
    rw (read_to_channel-read_messages c 1 (m ∷ ms) _ (holding [] []) [] whole (at_end c))
      (ap (λ out. some (delivered m ∷ out)) (append-nil (map delivered ms)))
