-- ===== src/Protocol/Channel/Progress.antt =====
-- Each message read leaves less to read, until the end of the stream.
use log_shipper.Base.{
  Bool, true, false, leb, Bool-cases, ℕ, zero, suc, ◌+◌, ◌≤◌, ◌<◌, ◌≡◌, refl, Option, none, some,
  List, [], ◌∷◌, arith, inl, inr, ◌⊎◌, ◌∙◌, ◌≢◌,
}
use log_shipper.Base.Lists.{length, drop, length-take, length-drop}
use log_shipper.Protocol.Input.{
  Fault, eof, io, malformed, Arrival, chunk, broken, stays, Reader, buffer_size, conn_read,
  put_back, read, fill_buffer,
}
use log_shipper.Protocol.Frame.{uint32}
use log_shipper.Protocol.{Message, Codec, read_message, read_body, decode_body}

abbrev weight : List Arrival → ℕ
weight [] = 0
weight (chunk bs ∷ rest) = suc (length bs) + weight rest
weight (broken e ∷ rest) = suc (weight rest)
weight (stays e ∷ rest) = suc (weight rest)

-- Whether the reads come to an end of the stream, and not to another error that stays.
abbrev pub is_ending : List Arrival → Bool
is_ending [] = true
is_ending (chunk bs ∷ rest) = is_ending rest
is_ending (broken eof ∷ rest) = true
is_ending (broken (io n) ∷ rest) = is_ending rest
is_ending (broken (malformed n) ∷ rest) = is_ending rest
is_ending (stays eof ∷ rest) = true
is_ending (stays (io n) ∷ rest) = false
is_ending (stays (malformed n) ∷ rest) = false

-- The bytes and the arrivals that are left.
abbrev pub measure : Reader → ℕ
measure r = length r.buffered + weight r.arrivals

weight-put_back :
    (bs : List ℕ) (rest : List Arrival) → weight (put_back bs rest) ≤ weight (chunk bs ∷ rest)
weight-put_back [] rest = omega arith
weight-put_back (b ∷ bs) rest = omega arith

-- What a read with this fault makes of the ending.
abbrev Moved : Option Fault → Bool → Bool → Type 0
Moved fault before after =
    (fault ≡ some eof → before ≡ true) × ((fault ≡ some eof) ⊎ (after ≡ before))

is_ending-put_back :
    (bs : List ℕ) (rest : List Arrival) → is_ending (put_back bs rest) ≡ is_ending rest
is_ending-put_back [] rest = refl
is_ending-put_back (b ∷ bs) rest = refl

conn_read-Moved :
    (room : ℕ) (arrivals : List Arrival)
    → let ((got, fault), rest) = conn_read room arrivals in
      Moved fault (is_ending arrivals) (is_ending rest)
unfolding conn_read
conn_read-Moved room [] = (λ e. refl, inl refl)
conn_read-Moved room (chunk bs ∷ rest) =
    (λ e. absurd (cc), inr (is_ending-put_back (drop room bs) rest))
conn_read-Moved room (broken eof ∷ rest) = (λ e. refl, inl refl)
conn_read-Moved room (broken (io n) ∷ rest) = (λ e. absurd (cc), inr refl)
conn_read-Moved room (broken (malformed n) ∷ rest) = (λ e. absurd (cc), inr refl)
conn_read-Moved room (stays eof ∷ rest) = (λ e. refl, inl refl)
conn_read-Moved room (stays (io n) ∷ rest) = (λ e. absurd (cc), inr refl)
conn_read-Moved room (stays (malformed n) ∷ rest) = (λ e. absurd (cc), inr refl)

read-Moved :
    (room : ℕ) (r : Reader)
    → let ((got, fault), r') = read room r in
      Moved fault (is_ending r.arrivals) (is_ending r'.arrivals)
unfolding read
read-Moved room r = go room r.buffered
  where
    go :
        (room : ℕ) (bs : List ℕ)
        → let ((got, fault), r') = read room (record { buffered = bs; arrivals = r.arrivals }) in
          Moved fault (is_ending r.arrivals) (is_ending r'.arrivals)
    go zero bs = (λ e. absurd (cc), inr refl)
    go (suc room) (b ∷ bs) = (λ e. absurd (cc), inr refl)
    go (suc room) [] =
        let direct = conn_read-Moved (suc room) r.arrivals in
        let filled = conn_read-Moved buffer_size r.arrivals in
        elim (Bool-cases (leb buffer_size (suc room))) [ inl e ↦ rw e direct | inr e ↦ rw e filled ]

-- A read of the connection takes its bytes from the arrivals, and takes one arrival if it has none.
conn_read-weight :
    (room : ℕ) (arrivals : List Arrival)
    → is_ending arrivals ≡ true
    → let ((got, fault), rest) = conn_read (suc room) arrivals in
      (length got + weight rest ≤ weight arrivals)
      × ((fault ≡ some eof) ⊎ (length got ≡ 0 → weight rest < weight arrivals))
unfolding conn_read
conn_read-weight room [] h = (omega arith, inl refl)
conn_read-weight room (chunk [] ∷ rest) h = (omega arith, inr (λ e. omega arith))
conn_read-weight room (chunk (b ∷ bs) ∷ rest) h = (
  omega (arith, weight-put_back (drop room bs) rest, length-take room bs, length-drop room bs),
  inr (λ e. absurd (omega arith)),
)
conn_read-weight room (broken e ∷ rest) h = (omega arith, inr (λ _. omega arith))
conn_read-weight room (stays eof ∷ rest) h = (omega arith, inl refl)
conn_read-weight room (stays (io n) ∷ rest) h = absurd (cc)
conn_read-weight room (stays (malformed n) ∷ rest) h = absurd (cc)

-- A read of at least one byte leaves less, or meets the end of the stream.
read-measure :
    (room : ℕ) (r : Reader)
    → is_ending r.arrivals ≡ true
    → let ((got, fault), r') = read (suc room) r in
      (measure r' ≤ measure r) × ((fault ≡ some eof) ⊎ (measure r' < measure r))
unfolding read
read-measure room r h = go r.buffered
  where
    go :
        (bs : List ℕ)
        → let ((got, fault), r') =
            read (suc room) (record { buffered = bs; arrivals = r.arrivals }) in
          (measure r' ≤ length bs + weight r.arrivals)
          × ((fault ≡ some eof) ⊎ (measure r' < length bs + weight r.arrivals))
    go (b ∷ bs) = (omega (arith, length-drop room bs), inr (omega (arith, length-drop room bs)))
    go [] =
        let direct = conn_read-weight room r.arrivals h in
        let filled = conn_read-weight 4095 r.arrivals h in
        let rest = length-drop (suc room) (conn_read buffer_size r.arrivals).0.0 in
        ground (arith, direct, filled, rest)

read-measure_le :
    (room : ℕ) (r : Reader) → is_ending r.arrivals ≡ true → measure (read room r).1 ≤ measure r
unfolding read
read-measure_le zero r h = omega arith
read-measure_le (suc room) r h = (read-measure room r h).0

decode_body-rest :
    (c : Codec Message) (size : ℕ) (x : (List ℕ × Option Fault) × Reader)
    → (decode_body c size x).1 ≡ x.1
unfolding decode_body
decode_body-rest c size ((got, some e), r) = refl
decode_body-rest c size ((got, none), r) = refl

decode_body-eof :
    (c : Codec Message) (size : ℕ) (x : (List ℕ × Option Fault) × Reader)
    → x.0.1 ≡ some eof
    → (decode_body c size x).0.1 ≡ some eof
unfolding decode_body
decode_body-eof c size ((got, some e), r) h = h
decode_body-eof c size ((got, none), r) h = absurd (cc)

-- The end of the stream, or less to read and the end still to come.
abbrev Goes : ℕ → Option Fault → Reader → Type 0
Goes bound fault r = (fault ≡ some eof) ⊎ ((measure r < bound) × (is_ending r.arrivals ≡ true))

read_body-Goes :
    (c : Codec Message) (bound : ℕ) (x : (List ℕ × Option Fault) × Reader)
    → Goes bound x.0.1 x.1
    → Goes bound (read_body c x).0.1 (read_body c x).1
unfolding read_body
read_body-Goes c bound ((got, some e), r) h = h
read_body-Goes c bound ((got, none), r) (inl e) = absurd (cc)
read_body-Goes c bound ((got, none), r) (inr h) =
    let size = uint32 (fill_buffer 4 got) in
    elim ((read-Moved size r).1) [
      | inl over ↦ inl (decode_body-eof c size (read size r) over)
      | inr same ↦ inr (
          rw (decode_body-rest c size (read size r))
            (omega (arith, read-measure_le size r h.1), same ∙ h.1))
    ]

pub read_message-Goes :
    (c : Codec Message) (r : Reader)
    → is_ending r.arrivals ≡ true
    → Goes (measure r) (read_message c r).0.1 (read_message c r).1
unfolding read_message
read_message-Goes c r p = read_body-Goes c (measure r) (read 4 r) (elim ((read-measure 3 r p).1) [
  | inl over ↦ inl over
  | inr less ↦ elim ((read-Moved 4 r).1) [ inl over ↦ inl over | inr same ↦ inr (less, same ∙ p) ]
])

-- No end of the stream, and none to come.
abbrev Stays : Option Fault → Reader → Type 0
Stays fault r = (fault ≢ some eof) × (is_ending r.arrivals ≡ false)

read-Stays :
    (room : ℕ) (r : Reader) → is_ending r.arrivals ≡ false → Stays (read room r).0.1 (read room r).1
read-Stays room r h =
    let moved = read-Moved room r in
    let going : (read room r).0.1 ≢ some eof = λ e. let ended = moved.0 e in cc in
    (going, elim (moved.1) [ inl e ↦ absurd (going e) | inr same ↦ same ∙ h ])

decode_body-going :
    (c : Codec Message) (size : ℕ) (x : (List ℕ × Option Fault) × Reader)
    → ((bs : List ℕ) → (c.unmarshal bs).1 ≢ some eof)
    → x.0.1 ≢ some eof
    → (decode_body c size x).0.1 ≢ some eof
unfolding decode_body
decode_body-going c size ((got, some e), r) plain h = h
decode_body-going c size ((got, none), r) plain h = plain _

read_body-Stays :
    (c : Codec Message) (x : (List ℕ × Option Fault) × Reader)
    → ((bs : List ℕ) → (c.unmarshal bs).1 ≢ some eof)
    → Stays x.0.1 x.1
    → Stays (read_body c x).0.1 (read_body c x).1
unfolding read_body
read_body-Stays c ((got, some e), r) plain h = h
read_body-Stays c ((got, none), r) plain h =
    let size = uint32 (fill_buffer 4 got) in
    let body = read-Stays size r h.1 in
    (
      decode_body-going c size (read size r) plain body.0,
      rw (decode_body-rest c size (read size r)) (body.1),
    )

pub read_message-Stays :
    (c : Codec Message) (r : Reader)
    → ((bs : List ℕ) → (c.unmarshal bs).1 ≢ some eof)
    → is_ending r.arrivals ≡ false
    → Stays (read_message c r).0.1 (read_message c r).1
unfolding read_message
read_message-Stays c r plain h = read_body-Stays c (read 4 r) plain (read-Stays 4 r h)
