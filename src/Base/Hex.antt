-- ===== src/Base/Hex.antt =====
-- encoding/hex over ASCII text.
use virtual_private_node.Base.Tests.{ltb, leb, if◌then◌else◌}
use virtual_private_node.Base.Lists.{All}
use virtual_private_node.Base.Text.{Text}
use Prim.Native.Nat.{ℕ, ◌+◌, ◌-◌, ◌*◌, ◌/◌, ◌%◌, ◌<◌}
use mathlib.Core.Path.{◌≡◌, refl, ap}
use mathlib.Core.Bool.{◌&&◌}
use mathlib.Core.Option.{Option, none, some}
use mathlib.Core.List.{List, [], ◌∷◌}
use native.Mathlib.Omega.{arith}

abbrev pub hex_value : ℕ → Option ℕ
hex_value c =
    if leb b'0' c && leb c b'9'
    then some (c - b'0')
    else if leb b'a' c && leb c b'f'
    then some (c - b'a' + 10)
    else if leb b'A' c && leb c b'F'
    then some (c - b'A' + 10)
    else none

-- Two digits in front of decoded bytes.
abbrev pub hex_byte : Option ℕ → Option ℕ → Option (List ℕ) → Option (List ℕ)
hex_byte (some a) (some b) (some rest) = some ((a * 16 + b) ∷ rest)
hex_byte _ _ _ = none

-- hex.DecodeString: `none` on an odd length or a character that is no hex digit.
unfoldable pub hex_decode : Text → Option (List ℕ)
hex_decode [] = some []
hex_decode (a ∷ []) = none
hex_decode (a ∷ b ∷ s) = hex_byte (hex_value a) (hex_value b) (hex_decode s)

abbrev pub hex_digit : ℕ → ℕ
hex_digit n = if ltb n 10 then b'0' + n else b'a' + n - 10

-- hex.EncodeToString
unfoldable pub hex_encode : List ℕ → Text
hex_encode [] = []
hex_encode (n ∷ l) = hex_digit (n / 16) ∷ hex_digit (n % 16) ∷ hex_encode l

hex_value-hex_digit : (n : ℕ) → n < 16 → hex_value (hex_digit n) ≡ some n
hex_value-hex_digit n h = ground arith

-- Bytes are read back from their hex text.
pub hex_decode-hex_encode : (l : List ℕ) → All (λ n. n < 256) l → hex_decode (hex_encode l) ≡ some l
unfolding hex_decode hex_encode
hex_decode-hex_encode [] h = refl
hex_decode-hex_encode (n ∷ l) h =
    rw
      (
        hex_value-hex_digit (n / 16) (omega arith),
        hex_value-hex_digit (n % 16) (omega arith),
        hex_decode-hex_encode l h.1,
      )
      (ap (λ k. some (k ∷ l)) (omega arith))
