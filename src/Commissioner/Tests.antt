-- ===== src/Commissioner/Tests.antt =====
-- A run of the commissioner of src/library/commissioner_impl.cpp, and the theorems at concrete inputs.
use ot_commissioner.Common.{◌≡◌, refl, true, [], ◌∷◌, none, rejected, ok, err, Returns}
use ot_commissioner.Bytes.{decode}
use ot_commissioner.Tlv.Length.{find_rule, mesh_cop_rules, allows}
use ot_commissioner.Tlv.{
  is_valid, serialize, put_length, is_extended_tlv, get_tlv_set, get_tlv_set_loop, deserialize,
  take_value, keep_valid, insert_tlv, no_tlvs,
}
use ot_commissioner.Tlv.Message.{append_tlv}
use ot_commissioner.Commissioner.{
  disabled, active, petitioning, petition, keep_alive, Commissioner, initial, is_active,
  is_disabled, disconnect, petition_connected, send_petition, petition_built, post_petition,
  Response, read_petition, check_code, required, accepts,
}
use ot_commissioner.Commissioner.Invariant.{IsConsistent, Reaches, started, petitions}
use ot_commissioner.Commissioner.Reachable.{Reaches-IsConsistent}
use ot_commissioner.Commissioner.Responses.{read_petition-Returns}
use ot_commissioner.Commissioner.Cancelled.{waiting, answered, disconnect-waiting}

-- State: accept, and session id 0x1234; and State: reject.
abbrev accepted : Response
accepted = record { code = 68; payload = 16 ∷ 1 ∷ 1 ∷ 11 ∷ 2 ∷ 0x12 ∷ 0x34 ∷ [] }

abbrev refused : Response
refused = record { code = 68; payload = 16 ∷ 1 ∷ 255 ∷ [] }

read_accepted : read_petition accepted ≡ ok 0x1234
unfolding read_petition check_code get_tlv_set get_tlv_set_loop deserialize take_value keep_valid
    insert_tlv is_valid find_rule mesh_cop_rules allows required accepts no_tlvs decode
read_accepted = refl

read_refused : read_petition refused ≡ err rejected
unfolding read_petition check_code get_tlv_set get_tlv_set_loop deserialize take_value keep_valid
    insert_tlv is_valid find_rule mesh_cop_rules allows required accepts no_tlvs decode
read_refused = refl

abbrev running : Commissioner
running = record {
  state = active;
  session_id = 7;
  timer = true;
  pending = keep_alive ∷ keep_alive ∷ [];
}

petitioned : Reaches (record initial { state = petitioning; pending = petition ∷ [] })
unfolding initial petition_connected is_active send_petition is_disabled petition_built append_tlv
    serialize is_valid find_rule mesh_cop_rules allows put_length is_extended_tlv post_petition
petitioned = petitions started (b'A' ∷ []) none

Reaches-IsConsistent_example :
    IsConsistent (record initial { state = petitioning; pending = petition ∷ [] })
Reaches-IsConsistent_example = Reaches-IsConsistent petitioned

read_petition-Returns_example : Returns (read_petition refused)
read_petition-Returns_example = read_petition-Returns refused

disconnect-waiting_example :
    ((disconnect running).0.state ≡ disabled)
    × ((disconnect running).0.pending ≡ [])
    × ((answered (disconnect running).1).0 ≡ 0)
    × ((answered (disconnect running).1).1 ≡ 2)
unfolding waiting
disconnect-waiting_example = disconnect-waiting running
