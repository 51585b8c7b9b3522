-- ===== src/Dataset/Pending.antt =====
-- EncodePendingOperationalDataset and DecodePendingOperationalDataset of
-- src/library/commissioner_impl.cpp.
pub mod RoundTrip
pub mod Safety
use ot_commissioner.Common.{
  ℕ, List, [], ◌∷◌, Result, ok, died, ◌>>=◌, has_flag, set_flag, if◌then◌else◌,
}
use ot_commissioner.Bytes.{encode, decode}
use ot_commissioner.Tlv.Types
use ot_commissioner.Tlv.{Tlv, TlvSet, mesh_cop, no_tlvs, get_tlv_set}
use ot_commissioner.Dataset.Timestamps.{decode_timestamp, encode_timestamp}
use ot_commissioner.Dataset.Active.{encode_active, decode_active}
use ot_commissioner.Dataset.{
  ActiveOperationalDataset, PendingOperationalDataset, append_present, when_present,
}

abbrev pub delay_timer_bit : ℕ
delay_timer_bit = 32

abbrev pub pending_timestamp_bit : ℕ
pending_timestamp_bit = 16

-- `mPresentFlags |= bit`, in the base class.
abbrev pub set_present : ℕ → ActiveOperationalDataset → ActiveOperationalDataset
set_present mask d = record d { present_flags = set_flag d.present_flags mask }

unfoldable pub read_delay_timer :
    List ℕ → PendingOperationalDataset → Result PendingOperationalDataset
read_delay_timer value d = do
  n ← decode 4 value
  ok (record d { active = set_present delay_timer_bit d.active; delay_timer = n })

unfoldable pub read_pending_timestamp :
    List ℕ → PendingOperationalDataset → Result PendingOperationalDataset
read_pending_timestamp value d = do
  n ← decode 8 value
  ok (record d {
    active = set_present pending_timestamp_bit d.active;
    pending_timestamp = decode_timestamp n;
  })

unfoldable pub decode_pending_fields :
    TlvSet → PendingOperationalDataset → Result PendingOperationalDataset
decode_pending_fields set d = do
  d ← when_present (set Types.delay_timer) read_delay_timer d
  when_present (set Types.pending_timestamp) read_pending_timestamp d

-- `DecodePendingOperationalDataset`: `fresh` is its local dataset, and `local` the one of
-- `DecodeActiveOperationalDataset`, as their constructors leave them.
unfoldable pub decode_pending :
    PendingOperationalDataset → ActiveOperationalDataset → List ℕ → Result PendingOperationalDataset
decode_pending fresh local payload = do
  active ← decode_active (record fresh.active { present_flags = 0 }) local payload
  set ← get_tlv_set mesh_cop no_tlvs payload
  decode_pending_fields set (record fresh { active = active })

-- `EncodePendingOperationalDataset`, on the payload of the request.
unfoldable pub encode_pending : List ℕ → PendingOperationalDataset → Result (List ℕ)
encode_pending payload d = do
  p ← encode_active payload d.active
  p ←
      append_present d.active.present_flags delay_timer_bit Types.delay_timer
        (encode 4 [] d.delay_timer) p
  append_present d.active.present_flags pending_timestamp_bit Types.pending_timestamp
      (encode 8 [] (encode_timestamp d.pending_timestamp)) p
