-- ===== src/Queries/Payloads.antt =====
-- The payloads of the queries in src/library/commissioner_impl.cpp, read back.
use ot_commissioner.Common.{
  ℕ, ◌<◌, ◌≡◌, refl, arith, ==_iff, true, All, List, [], ◌∷◌, some, ok, err, false, invalid_args,
  length,
}
use ot_commissioner.Bytes.{encode}
use ot_commissioner.Bytes.RoundTrip.{length-encode}
use ot_commissioner.Tlv.Types
use ot_commissioner.Tlv.{
  Tlv, TlvSet, mesh_cop, no_tlvs, get_tlv_set, empty_tlv, insert_tlv, is_valid,
}
use ot_commissioner.Tlv.Length.{LengthRule, find_rule, mesh_cop_rules, allows}
use ot_commissioner.Tlv.Message.{
  append_tlv, append_tlv-wire, append_tlvs, insert_all, IsSendable, get_tlv_set-append_tlvs,
}
use ot_commissioner.Dataset.Rows.{row-is_valid}
use ot_commissioner.Dataset.Masks.{
  decode_channel_mask, decode_channel_mask_loop, encode_channel_mask,
}
use ot_commissioner.Queries.{
  has_channels, masks_of, encode_or_die, make_channel_mask, query_payload, energy_scan_payload,
}

abbrev all_channels : List ℕ
all_channels = 0 ∷ 4 ∷ 0x07 ∷ 0xff ∷ 0xf8 ∷ 0 ∷ []

pub make_channel_mask_lem :
    (channel_mask : ℕ)
    → has_channels channel_mask ≡ true
    → make_channel_mask [] channel_mask ≡ ok all_channels
unfolding make_channel_mask masks_of encode_channel_mask encode_or_die encode
make_channel_mask_lem channel_mask e = rw e refl

pub number :
    (type k n : ℕ)
    → k < 255
    → find_rule type mesh_cop_rules ≡ some (LengthRule.exactly k)
    → is_valid (empty_tlv type (encode k [] n)) ≡ true
unfolding allows
number type k n small e =
    row-is_valid type (LengthRule.exactly k) (encode k [] n) (omega (arith, length-encode k n)) e
      ((==_iff (length (encode k [] n)) k).1 (length-encode k n))

head_tlvs : ℕ → List Tlv → List Tlv
head_tlvs session_id tlvs =
    empty_tlv Types.commissioner_session_id (encode 2 [] session_id)
    ∷ empty_tlv Types.channel_mask all_channels
    ∷ tlvs

head-IsSendable :
    (session_id : ℕ) (tlvs : List Tlv)
    → All (IsSendable mesh_cop) tlvs
    → All (IsSendable mesh_cop) (head_tlvs session_id tlvs)
unfolding head_tlvs find_rule mesh_cop_rules allows
head-IsSendable session_id tlvs all = (
  (
    refl,
    number Types.commissioner_session_id 2 session_id (omega arith) refl,
    λ e. absurd (omega arith),
  ),
  (
    (
      refl,
      row-is_valid Types.channel_mask LengthRule.below_escape all_channels (omega arith) refl refl,
      λ e. absurd (omega arith),
    ),
    all,
  ),
)

-- A payload of TLVs that can be sent is built if the mask has a channel, and is refused otherwise.
pub query_payload-built :
    (session_id channel_mask : ℕ) (tlvs : List Tlv)
    → All (IsSendable mesh_cop) tlvs
    → has_channels channel_mask ≡ true
    → (payload : List ℕ) × (query_payload session_id channel_mask tlvs ≡ ok payload)
unfolding query_payload head_tlvs append_tlvs
query_payload-built session_id channel_mask tlvs all some_channel =
    let (payload, sent, read) =
      get_tlv_set-append_tlvs mesh_cop no_tlvs (head_tlvs session_id tlvs)
        (head-IsSendable session_id tlvs all) in
    (payload, rw (make_channel_mask_lem channel_mask some_channel) sent)

pub query_payload-refused :
    (session_id channel_mask : ℕ) (tlvs : List Tlv)
    → has_channels channel_mask ≡ false
    → query_payload session_id channel_mask tlvs ≡ err invalid_args
unfolding query_payload make_channel_mask masks_of
query_payload-refused session_id channel_mask tlvs no_channel =
    let session = empty_tlv Types.commissioner_session_id (encode 2 [] session_id) in
    rw
      (
        append_tlv-wire [] session (
            number Types.commissioner_session_id 2 session_id (omega arith)
              (unfold find_rule mesh_cop_rules in refl)),
        no_channel,
      )
      refl

module _ (session_id channel_mask count period scan_duration : ℕ) where
  unfoldable scan_tlvs : List Tlv
  scan_tlvs =
      empty_tlv Types.commissioner_session_id (encode 2 [] session_id)
      ∷ empty_tlv Types.channel_mask all_channels
      ∷ empty_tlv Types.count (encode 1 [] count)
      ∷ empty_tlv Types.period (encode 2 [] period)
      ∷ empty_tlv Types.scan_duration (encode 2 [] scan_duration)
      ∷ []

  scan-IsSendable : All (IsSendable mesh_cop) scan_tlvs
  unfolding scan_tlvs find_rule mesh_cop_rules allows
  scan-IsSendable =
      unfold head_tlvs in
      head-IsSendable session_id
        (empty_tlv Types.count (encode 1 [] count)
          ∷ empty_tlv Types.period (encode 2 [] period)
          ∷ empty_tlv Types.scan_duration (encode 2 [] scan_duration)
          ∷ [])
        (
          (refl, number Types.count 1 count (omega arith) refl, λ e. absurd (omega arith)),
          (
            (refl, number Types.period 2 period (omega arith) refl, λ e. absurd (omega arith)),
            (
              (
                refl,
                number Types.scan_duration 2 scan_duration (omega arith) refl,
                λ e. absurd (omega arith),
              ),
              tt,
            ),
          ),
        )

  -- The request of an energy scan holds the session id, the count, the period and the duration of the scan,
  -- and a channel mask of all the channels 11 to 26, whichever of them the mask asks for, if it asks for one
  -- of them.
  pub energy_scan-reads :
      has_channels channel_mask ≡ true
      → (payload : List ℕ) × (energy_scan_payload session_id channel_mask count period scan_duration
          ≡ ok payload)
        × (set : TlvSet) × (get_tlv_set mesh_cop no_tlvs payload ≡ ok set)
        × (set Types.commissioner_session_id
            ≡ some (empty_tlv Types.commissioner_session_id (encode 2 [] session_id)))
        × (set Types.count ≡ some (empty_tlv Types.count (encode 1 [] count)))
        × (set Types.period ≡ some (empty_tlv Types.period (encode 2 [] period)))
        × (set Types.scan_duration
            ≡ some (empty_tlv Types.scan_duration (encode 2 [] scan_duration)))
        × (mask : Tlv) × (set Types.channel_mask ≡ some mask)
        × (decode_channel_mask mask.value
            ≡ ok (record { page = 0; masks = 0x07 ∷ 0xff ∷ 0xf8 ∷ 0 ∷ [] } ∷ []))
  unfolding energy_scan_payload query_payload scan_tlvs insert_all insert_tlv no_tlvs
      decode_channel_mask append_tlv append_tlvs decode_channel_mask_loop
  energy_scan-reads some_channel =
      let (payload, sent, read) =
        get_tlv_set-append_tlvs mesh_cop no_tlvs scan_tlvs scan-IsSendable in
      (
        payload,
        rw (make_channel_mask_lem channel_mask some_channel) sent,
        insert_all no_tlvs scan_tlvs,
        read,
        refl,
        refl,
        refl,
        refl,
        empty_tlv Types.channel_mask all_channels,
        refl,
        refl,
      )
