-- ===== src/Protocol/Frame.antt =====
-- protocol/protocol.go: the length in front of a frame, four bytes in little-endian order.
use log_shipper.Base.{ℕ, ◌+◌, ◌*◌, ◌/◌, ◌%◌, ◌^◌, ◌<◌, ◌≡◌, refl, List, [], ◌∷◌, arith}
use log_shipper.Base.Lists.{length, get_or}

-- `binary.Write(buff, binary.LittleEndian, size)`.
unfoldable pub put_uint32 : ℕ → List ℕ
put_uint32 n = (n % 256) ∷ (n / 2 ^ 8 % 256) ∷ (n / 2 ^ 16 % 256) ∷ (n / 2 ^ 24 % 256) ∷ []

-- `binary.LittleEndian.Uint32`.
unfoldable pub uint32 : List ℕ → ℕ
uint32 bs = get_or bs 0 0 + get_or bs 1 0 * 2 ^ 8 + get_or bs 2 0 * 2 ^ 16 + get_or bs 3 0 * 2 ^ 24

pub uint32-put_uint32 : (n : ℕ) → n < 2 ^ 32 → uint32 (put_uint32 n) ≡ n
unfolding uint32 put_uint32
uint32-put_uint32 n h = omega arith

pub length-put_uint32 : (n : ℕ) → length (put_uint32 n) ≡ 4
unfolding put_uint32
length-put_uint32 n = refl
