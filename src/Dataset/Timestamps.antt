-- ===== src/Dataset/Timestamps.antt =====
-- The struct Timestamp of include/commissioner/network_data.hpp and its codec of
-- src/library/network_data.cpp.
use ot_commissioner.Common.{ℕ, ◌+◌, ◌*◌, ◌/◌, ◌%◌, ◌^◌, ◌<◌, ◌≡◌, arith}

-- The bit-fields of 48, 15 and 1 bits.
pub record Timestamp : Type 0 where
  pub seconds : ℕ
  pub ticks : ℕ
  pub u : ℕ

-- An assignment to a bit-field cuts the value.
unfoldable pub decode_timestamp : ℕ → Timestamp
decode_timestamp value = record {
  seconds = value / 2 ^ 16 % 2 ^ 48;
  ticks = value % 2 ^ 16 / 2 % 2 ^ 15;
  u = value % 2;
}

-- The operands of `|` have no bit in common, since each field keeps within its width.
unfoldable pub encode_timestamp : Timestamp → ℕ
encode_timestamp t = t.seconds * 2 ^ 16 + t.ticks * 2 + t.u

abbrev pub IsTimestamp : Timestamp → Type 0
IsTimestamp t = (t.seconds < 2 ^ 48) × (t.ticks < 2 ^ 15) × (t.u < 2)

pub encode_timestamp_lt : (t : Timestamp) → IsTimestamp t → encode_timestamp t < 2 ^ 64
unfolding encode_timestamp
encode_timestamp_lt t h = omega arith

pub decode_timestamp-encode_timestamp :
    (t : Timestamp) → IsTimestamp t → decode_timestamp (encode_timestamp t) ≡ t
unfolding decode_timestamp encode_timestamp
decode_timestamp-encode_timestamp t h =
    let a : (t.seconds * 2 ^ 16 + t.ticks * 2 + t.u) / 2 ^ 16 % 2 ^ 48 ≡ t.seconds = omega arith in
    let b : (t.seconds * 2 ^ 16 + t.ticks * 2 + t.u) % 2 ^ 16 / 2 % 2 ^ 15 ≡ t.ticks =
      omega arith in
    let c : (t.seconds * 2 ^ 16 + t.ticks * 2 + t.u) % 2 ≡ t.u = omega arith in
    λ i. record { seconds = a i; ticks = b i; u = c i }

-- A timestamp whose fields keep their widths is encoded to an integer that decodes to it, and an
-- integer of 64 bits decodes to a timestamp that encodes to it.
pub timestamp_codec :
    (t : Timestamp) (value : ℕ)
    → IsTimestamp t
    → value < 2 ^ 64
    → (decode_timestamp (encode_timestamp t) ≡ t)
      × IsTimestamp (decode_timestamp value)
      × (encode_timestamp (decode_timestamp value) ≡ value)
timestamp_codec t value h lt = (
  decode_timestamp-encode_timestamp t h,
  unfold decode_timestamp in (omega arith, omega arith, omega arith),
  unfold decode_timestamp encode_timestamp in omega arith,
)
