-- ===== src/Queries.antt =====
-- AnnounceBegin, PanIdQuery and EnergyScan of src/library/commissioner_impl.cpp, without CCM, and the channel masks of
-- include/commissioner/defines.hpp. The destination is the address that the system reads of the text.
pub mod Payloads
pub mod Destination
mod Tests
use ot_commissioner.Common.{
  ℕ, ◌/◌, ◌%◌, ◌^◌, ◌*◌, Bool, true, false, not, List, [], ◌∷◌, Option, none, some, Result, ok, err,
  died, ErrorCode, if◌then◌else◌, ◌==◌, verify, ◌>>=◌, ◌>>◌, invalid_args, invalid_state, no_bytes,
}
use ot_commissioner.Bytes.{encode}
use ot_commissioner.Address
use ot_commissioner.Address.{Address}
use ot_commissioner.Tlv.Types
use ot_commissioner.Tlv.{Tlv, empty_tlv}
use ot_commissioner.Tlv.Message.{append_tlv, append_tlvs}
use ot_commissioner.Dataset.Masks.{ChannelMaskEntry, encode_channel_mask}
use ot_commissioner.Commissioner.{Response, check_code}
use ot_commissioner.Proxy.{Proxy, send_request_to}

abbrev pub radio_2p4ghz_oqpsk_channel_mask : ℕ
radio_2p4ghz_oqpsk_channel_mask = 0xffff * 2 ^ 11

abbrev pub radio_channel_page0 : ℕ
radio_channel_page0 = 0

-- `aChannelMask & kRadio2P4GhzOqpskChannelMask`: the channels 11 to 26.
unfoldable pub has_channels : ℕ → Bool
has_channels channel_mask = not ((channel_mask / 2 ^ 11) % 2 ^ 16 == 0)

-- The masks of the entry, empty where no channel is in the mask; the radio is not one of 915 MHz.
unfoldable pub masks_of : ℕ → List ℕ
masks_of channel_mask =
    if has_channels channel_mask then encode 4 [] radio_2p4ghz_oqpsk_channel_mask else []

-- An error of EncodeChannelMask aborts.
unfoldable pub encode_or_die : Result (List ℕ) → Result (List ℕ)
encode_or_die (ok buf) = ok buf
encode_or_die (err error) = died
encode_or_die died = died

unfoldable pub make_channel_mask : List ℕ → ℕ → Result (List ℕ)
make_channel_mask buf channel_mask = do
  verify (not (no_bytes (masks_of channel_mask))) invalid_args
  encode_or_die (
      encode_channel_mask buf
        (record { page = radio_channel_page0; masks = masks_of channel_mask } ∷ []))

-- What each payload begins with, and the TLVs that it has besides.
unfoldable pub query_payload : ℕ → ℕ → List Tlv → Result (List ℕ)
query_payload session_id channel_mask tlvs = do
  payload ← append_tlv [] (empty_tlv Types.commissioner_session_id (encode 2 [] session_id))
  mask ← make_channel_mask [] channel_mask
  append_tlvs payload (empty_tlv Types.channel_mask mask ∷ tlvs)

unfoldable pub announce_begin_payload : ℕ → ℕ → ℕ → ℕ → Result (List ℕ)
announce_begin_payload session_id channel_mask count period =
    query_payload session_id channel_mask
      (empty_tlv Types.count (encode 1 [] count) ∷ empty_tlv Types.period (encode 2 [] period) ∷ [])

unfoldable pub pan_id_query_payload : ℕ → ℕ → ℕ → Result (List ℕ)
pan_id_query_payload session_id channel_mask pan_id =
    query_payload session_id channel_mask (empty_tlv Types.pan_id (encode 2 [] pan_id) ∷ [])

unfoldable pub energy_scan_payload : ℕ → ℕ → ℕ → ℕ → ℕ → Result (List ℕ)
energy_scan_payload session_id channel_mask count period scan_duration =
    query_payload session_id channel_mask (
      empty_tlv Types.count (encode 1 [] count)
      ∷ empty_tlv Types.period (encode 2 [] period)
      ∷ empty_tlv Types.scan_duration (encode 2 [] scan_duration)
      ∷ [])

abbrev pub default_mm_port : ℕ
default_mm_port = 61631

pub record Query : Type 0 where
  pub confirmable : Bool
  pub content : List ℕ
  pub proxy : Proxy

-- A request to a multicast address is not confirmable.
unfoldable pub send_query : Result Address → Bool → Result (List ℕ) → Proxy → Result Query
send_query dst is_active payload proxy = do
  dst_addr ← dst
  verify is_active invalid_state
  content ← payload
  (call, next) ← send_request_to dst_addr default_mm_port proxy
  ok (record { confirmable = not (Address.is_multicast dst_addr); content = content; proxy = next })

module _ (dst : Result Address) (is_active : Bool) (session_id channel_mask : ℕ) where
  unfoldable pub announce_begin : ℕ → ℕ → Proxy → Result Query
  announce_begin count period proxy =
      send_query dst is_active (announce_begin_payload session_id channel_mask count period) proxy

  unfoldable pub pan_id_query : ℕ → Proxy → Result Query
  pan_id_query pan_id proxy =
      send_query dst is_active (pan_id_query_payload session_id channel_mask pan_id) proxy

  unfoldable pub energy_scan : ℕ → ℕ → ℕ → Proxy → Result Query
  energy_scan count period scan_duration proxy =
      send_query dst is_active
        (energy_scan_payload session_id channel_mask count period scan_duration) proxy

-- `onResponse`: the error that the handler is called with, if there is one.
unfoldable pub on_response : Result Response → Result (Unit {0})
on_response response = do answer ← response; check_code answer

-- What the handler is called with at the end of the function, if it is called: the error, if there is one.
unfoldable pub at_exit : Result Query → Result (Option (Option ErrorCode))
at_exit (ok query) = ok (if query.confirmable then none else some none)
at_exit (err error) = ok (some (some error))
at_exit died = died
