-- ===== src/Base/Utf8.antt =====
-- The bytes of a Go string, and `strings.TrimSpace`.
use Prim.Native.Nat.{ℕ, ◌+◌, ◌/◌, ◌%◌}
use Prim.Native.Char.{Char, code}
use Prim.Native.String.{String}
use mathlib.Core.Path.{◌≡◌, refl}
use mathlib.Core.Bool.{Bool, ◌&&◌, ◌||◌}
use mathlib.Core.List.{List, [], ◌∷◌, ◌++◌}
use log_shipper.Base.Tests.{ltb, leb, ◌==◌, if◌then◌else◌}

-- A continuation byte with the six bits of `n` from `unit` on.
continuation : ℕ → ℕ → ℕ
continuation n unit = 128 + n / unit % 64

encode : ℕ → List ℕ
unfolding continuation
encode n =
    if ltb n 0x80
    then n ∷ []
    else if ltb n 0x800
    then (0xc0 + n / 0x40) ∷ continuation n 1 ∷ []
    else if ltb n 0x1_0000
    then (0xe0 + n / 0x1000) ∷ continuation n 0x40 ∷ continuation n 1 ∷ []
    else (0xf0 + n / 0x4_0000) ∷ continuation n 0x1000 ∷ continuation n 0x40 ∷ continuation n 1 ∷ []

unfoldable pub utf8 : String → List ℕ
unfolding encode
utf8 String.[] = []
utf8 (String.◌∷◌ c s) = encode (code c) ++ utf8 s

-- `unicode.IsSpace`.
is_space : ℕ → Bool
is_space n =
    (leb 9 n && leb n 13)
    || (n == 0x20)
    || (n == 0x85)
    || (n == 0xa0)
    || (n == 0x1680)
    || (leb 0x2000 n && leb n 0x200a)
    || (n == 0x2028)
    || (n == 0x2029)
    || (n == 0x202f)
    || (n == 0x205f)
    || (n == 0x3000)

trim_left : String → String
unfolding is_space
trim_left String.[] = String.[]
trim_left (String.◌∷◌ c s) =
    let rest = trim_left s in if is_space (code c) then rest else String.◌∷◌ c s

-- `c` in front of a text that is trimmed on its right.
put_front : Char → String → String
unfolding is_space
put_front c String.[] = if is_space (code c) then String.[] else String.◌∷◌ c String.[]
put_front c (String.◌∷◌ d s) = String.◌∷◌ c (String.◌∷◌ d s)

trim_right : String → String
unfolding put_front
trim_right String.[] = String.[]
trim_right (String.◌∷◌ c s) = put_front c (trim_right s)

unfoldable pub trim_space : String → String
unfolding trim_left trim_right
trim_space s = trim_left (trim_right s)

trim_test : trim_space " \t[a] b \n" ≡ "[a] b"
unfolding trim_space
trim_test = refl

utf8_test : utf8 "aλ" ≡ 97 ∷ 206 ∷ 187 ∷ []
unfolding utf8
utf8_test = refl
