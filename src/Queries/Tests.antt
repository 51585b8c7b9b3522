-- ===== src/Queries/Tests.antt =====
-- Queries at concrete inputs.
use ot_commissioner.Common.{
  ℕ, ◌≡◌, refl, true, false, List, [], ◌∷◌, some, none, ok, err, invalid_args, invalid_state,
}
use ot_commissioner.Bytes.{encode}
use ot_commissioner.Address
use ot_commissioner.Tlv.Types
use ot_commissioner.Tlv.{Tlv, TlvSet, mesh_cop, no_tlvs, get_tlv_set, empty_tlv}
use ot_commissioner.Dataset.Masks.{decode_channel_mask}
use ot_commissioner.Proxy.{Proxy, send_request_to}
use ot_commissioner.Queries.{
  announce_begin, pan_id_query, energy_scan, on_response, has_channels, masks_of, make_channel_mask,
  energy_scan_payload, send_query, at_exit,
}
use ot_commissioner.Queries.Payloads.{energy_scan-reads}
use ot_commissioner.Queries.Destination.{dies, queries-dies}

abbrev proxy : Proxy
proxy = record { peer_addr = []; peer_port = 0; mesh_local_prefix = [] }

abbrev all_nodes : Address.Address
all_nodes = 0xff ∷ 3 ∷ 0 ∷ 0 ∷ 0 ∷ 0 ∷ 0 ∷ 0 ∷ 0 ∷ 0 ∷ 0 ∷ 0 ∷ 0 ∷ 0 ∷ 0 ∷ 1 ∷ []

-- The channels 0 to 10 are none of the radio.
no_channel : make_channel_mask [] 0x7ff ≡ err invalid_args
unfolding make_channel_mask masks_of has_channels
no_channel = refl

-- To all nodes, the handler is called at once.
to_all_nodes : at_exit (send_query (ok all_nodes) true (ok (1 ∷ [])) proxy) ≡ ok (some none)
unfolding at_exit send_query send_request_to Address.is_valid Address.is_ipv6 Address.is_multicast
to_all_nodes = refl

not_active :
    at_exit (send_query (ok all_nodes) false (ok []) proxy) ≡ ok (some (some invalid_state))
unfolding at_exit send_query
not_active = refl

queries-dies_example :
    (dies (at_exit (announce_begin (ok (192 ∷ 168 ∷ 0 ∷ 1 ∷ [])) true 7 2048 2 32 proxy)) ≡ true)
    × (dies (at_exit (pan_id_query (ok (192 ∷ 168 ∷ 0 ∷ 1 ∷ [])) true 7 2048 0xface proxy)) ≡ true)
    × (dies (at_exit (energy_scan (ok (192 ∷ 168 ∷ 0 ∷ 1 ∷ [])) true 7 2048 2 32 32 proxy)) ≡ true)
unfolding has_channels Address.set
queries-dies_example = queries-dies (192 ∷ 168 ∷ 0 ∷ 1 ∷ []) true 7 2048 2 32 32 0xface proxy

-- An error of the response, or its code, is what the handler is called with.
no_answer : on_response (err invalid_state) ≡ err invalid_state
unfolding on_response
no_answer = refl

-- The channel 11 alone is asked for.
energy_scan-reads_example :
    (payload : List ℕ) × (energy_scan_payload 7 2048 2 32 32 ≡ ok payload)
    × (set : TlvSet) × (get_tlv_set mesh_cop no_tlvs payload ≡ ok set)
    × (set Types.commissioner_session_id
        ≡ some (empty_tlv Types.commissioner_session_id (encode 2 [] 7)))
    × (set Types.count ≡ some (empty_tlv Types.count (encode 1 [] 2)))
    × (set Types.period ≡ some (empty_tlv Types.period (encode 2 [] 32)))
    × (set Types.scan_duration ≡ some (empty_tlv Types.scan_duration (encode 2 [] 32)))
    × (mask : Tlv) × (set Types.channel_mask ≡ some mask)
    × (decode_channel_mask mask.value
        ≡ ok (record { page = 0; masks = 0x07 ∷ 0xff ∷ 0xf8 ∷ 0 ∷ [] } ∷ []))
unfolding has_channels
energy_scan-reads_example = energy_scan-reads 7 2048 2 32 32 refl
