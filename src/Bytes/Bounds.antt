-- ===== src/Bytes/Bounds.antt =====
-- `Decode` of src/common/utils.hpp on arrays that are long enough.
use ot_commissioner.Common.{
  ℕ, zero, suc, ◌+◌, ◌*◌, ◌%◌, ◌^◌, ◌≤◌, refl, arith, List, [], ◌∷◌, length, Yields,
}
use ot_commissioner.Bytes.{decode, decode_loop}

decode_loop-Yields :
    (width k ret : ℕ) (bytes : List ℕ) → k ≤ length bytes → Yields (decode_loop width k ret bytes)
unfolding decode_loop
decode_loop-Yields width zero ret bytes h = (ret, refl)
decode_loop-Yields width (suc k) ret [] h = absurd (omega arith)
decode_loop-Yields width (suc k) ret (b ∷ bytes) h =
    decode_loop-Yields width k ((ret * 256 + b) % 256 ^ width) bytes (omega arith)

pub decode-Yields : (k : ℕ) (bytes : List ℕ) → k ≤ length bytes → Yields (decode k bytes)
unfolding decode
decode-Yields k bytes h = decode_loop-Yields k k 0 bytes h
