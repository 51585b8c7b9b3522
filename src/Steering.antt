-- ===== src/Steering.antt =====
-- The steering data of joiners: src/library/openthread/crc16.cpp,
-- src/library/openthread/bloom_filter.cpp, and AddJoiner of src/library/commissioner_impl.cpp.
pub mod Bits
pub mod Joiners
mod Tests
use Prim.Native.Nat.{bit_xor}
use ot_commissioner.Common.{
  ℕ, zero, suc, ◌+◌, ◌-◌, ◌*◌, ◌/◌, ◌%◌, ◌^◌, Bool, not, List, [], ◌∷◌, length, replicate, leb, ltb,
  ◌==◌, if◌then◌else◌, has_flag, set_flag, Result, ok, ◌>>=◌, ◌>>◌, assert,
}

abbrev pub ccitt : ℕ
ccitt = 0x1021

abbrev pub ansi : ℕ
ansi = 0x8005

-- One round of the loop of `Crc16::Update`.
unfoldable pub crc_round : ℕ → ℕ → ℕ
crc_round polynomial crc =
    if has_flag crc 0x8000 then bit_xor (crc * 2 % 2 ^ 16) polynomial else crc * 2 % 2 ^ 16

unfoldable pub crc_rounds : ℕ → ℕ → ℕ → ℕ
crc_rounds zero polynomial crc = crc
crc_rounds (suc i) polynomial crc = crc_rounds i polynomial (crc_round polynomial crc)

unfoldable pub update : ℕ → ℕ → ℕ → ℕ
update polynomial crc byte = crc_rounds 8 polynomial (bit_xor crc (byte * 2 ^ 8 % 2 ^ 16))

-- `Update` for each byte, from the initial value on.
unfoldable pub updates : ℕ → ℕ → List ℕ → ℕ
updates polynomial crc [] = crc
updates polynomial crc (byte ∷ bytes) = updates polynomial (update polynomial crc byte) bytes

unfoldable pub crc16 : ℕ → List ℕ → ℕ
crc16 polynomial bytes = updates polynomial 0 bytes

-- `aOut[index] |= mask`
unfoldable pub or_at : ℕ → ℕ → List ℕ → List ℕ
or_at index mask [] = []
or_at zero mask (byte ∷ bytes) = set_flag byte mask ∷ bytes
or_at (suc index) mask (byte ∷ bytes) = byte ∷ or_at index mask bytes

-- `SetBit`: the lowest bit is in the last byte.
unfoldable pub set_bit : List ℕ → ℕ → List ℕ
set_bit out bit = or_at (length out - 1 - bit / 8) (2 ^ (bit % 8)) out

unfoldable pub set_bits : List ℕ → List ℕ → List ℕ
set_bits out input =
    let bits = length out * 8 in
    set_bit (set_bit out (crc16 ccitt input % bits)) (crc16 ansi input % bits)

unfoldable pub compute_bloom_filter : List ℕ → List ℕ → Result (List ℕ)
compute_bloom_filter out input = do
  assert (not (length out == 0))
  assert (leb (length out * 8) 255)
  ok (set_bits out input)

abbrev pub max_steering_data_length : ℕ
max_steering_data_length = 16

unfoldable pub add_joiner : List ℕ → List ℕ → Result (List ℕ)
add_joiner steering_data joiner_id =
    compute_bloom_filter
      (if length steering_data == max_steering_data_length
        then steering_data
        else replicate max_steering_data_length 0)
      joiner_id
