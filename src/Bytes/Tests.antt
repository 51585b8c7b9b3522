-- ===== src/Bytes/Tests.antt =====
-- Concrete runs of src/common/utils.{hpp,cpp}, and the theorems at concrete inputs.
use ot_commissioner.Common.{◌≡◌, refl, [], ◌∷◌, ok}
use ot_commissioner.Bytes.{encode, hex, from_hex, hex_digit}

encode_port : encode 2 (7 ∷ []) 0xf0bf ≡ 7 ∷ 0xf0 ∷ 0xbf ∷ []
unfolding encode
encode_port = refl

hex_lower : hex (0xab ∷ 0x09 ∷ []) ≡ b'a' ∷ b'b' ∷ b'0' ∷ b'9' ∷ []
unfolding hex
hex_lower = refl

from_hex_upper : from_hex [] (b'A' ∷ b'f' ∷ []) ≡ ok (0xaf ∷ [])
unfolding from_hex hex_digit
from_hex_upper = refl
