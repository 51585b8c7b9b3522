-- ===== src/Relay/RoundTrip.antt =====
-- What SendRlyTx of src/library/joiner_session.cpp sends, read as HandleRlyRx of
-- src/library/commissioner_impl.cpp reads a message: the same TLVs, with the local bit of the id toggled.
use ot_commissioner.Common.{
  ℕ, ◌<◌, ◌≡◌, ◌^◌, refl, ap, ◌∙◌, arith, ◌≤◌, toggle_flag, List, [], ◌∷◌, ok, length, false, true,
  All, some, ==_iff,
}
use ot_commissioner.Bytes.{encode}
use ot_commissioner.Bytes.RoundTrip.{length-encode, decode-encode_all}
use ot_commissioner.Tlv.Types
use ot_commissioner.Tlv.{Tlv, mesh_cop, no_tlvs, empty_tlv, insert_tlv, is_valid}
use ot_commissioner.Tlv.Length.{find_rule, mesh_cop_rules, allows}
use ot_commissioner.Dataset.Rows.{row-is_valid}
use ot_commissioner.Tlv.Length.{LengthRule}
use ot_commissioner.Tlv.Message.{insert_all, IsSendable, get_tlv_set-append_tlvs}
use ot_commissioner.Commissioner.{required}
use ot_commissioner.Relay.{
  JoinerSession, flip_local, read_fields, read_rly_rx, append_kek, send_rly_tx,
}

toggle_twice : (b : ℕ) → toggle_flag (toggle_flag b 2) 2 ≡ b
toggle_twice b = ground arith

flip_twice :
    (id : List ℕ)
    → 1 ≤ length id
    → (iid : List ℕ) × (flip_local id ≡ ok iid)
      × (flip_local iid ≡ ok id)
      × (length iid ≡ length id)
unfolding flip_local
flip_twice [] le = absurd (omega arith)
flip_twice (b ∷ id) le = (_, refl, ap (λ c. ok (c ∷ id)) (toggle_twice b), refl)

module _ (s : JoinerSession) (iid dtls_message : List ℕ) where
  unfoldable relayed_tlvs : List Tlv
  relayed_tlvs =
      empty_tlv Types.joiner_udp_port (encode 2 [] s.joiner_udp_port)
      ∷ empty_tlv Types.joiner_router_locator (encode 2 [] s.joiner_router_locator)
      ∷ empty_tlv Types.joiner_iid iid
      ∷ empty_tlv Types.joiner_dtls_encapsulation dtls_message
      ∷ []

  relayed-IsSendable :
      length iid ≡ 8 → length dtls_message < 2 ^ 16 → All (IsSendable mesh_cop) relayed_tlvs
  unfolding relayed_tlvs find_rule mesh_cop_rules allows
  relayed-IsSendable eight short = (
    (refl, two Types.joiner_udp_port s.joiner_udp_port refl, λ e. absurd (omega arith)),
    (
      (
        refl,
        two Types.joiner_router_locator s.joiner_router_locator refl,
        λ e. absurd (omega arith),
      ),
      (
        (
          refl,
          row-is_valid Types.joiner_iid (LengthRule.exactly 8) iid (omega arith) refl
              ((==_iff (length iid) 8).1 eight),
          λ e. absurd (omega arith),
        ),
        (
          (
            refl,
            row-is_valid Types.joiner_dtls_encapsulation LengthRule.any dtls_message short refl
                refl,
            λ e. absurd (omega arith),
          ),
          tt,
        ),
      ),
    ),
  )
    where
      two :
          (type n : ℕ)
          → find_rule type mesh_cop_rules ≡ some (LengthRule.exactly 2)
          → is_valid (empty_tlv type (encode 2 [] n)) ≡ true
      two type n e =
          row-is_valid type (LengthRule.exactly 2) (encode 2 [] n)
            (omega (arith, length-encode 2 n)) e
            ((==_iff (length (encode 2 [] n)) 2).1 (length-encode 2 n))

  read_relayed :
      s.joiner_udp_port < 2 ^ 16
      → s.joiner_router_locator < 2 ^ 16
      → flip_local iid ≡ ok s.joiner_id
      → read_fields (insert_all no_tlvs relayed_tlvs)
        ≡ ok (record {
          udp_port = s.joiner_udp_port;
          router_locator = s.joiner_router_locator;
          id = s.joiner_id;
          dtls_records = dtls_message;
        })
  unfolding read_fields insert_all insert_tlv no_tlvs relayed_tlvs required
  read_relayed port locator e =
      rw (decode-encode_all 2 s.joiner_udp_port port)
        (rw (decode-encode_all 2 s.joiner_router_locator locator) (rw e refl))

-- What a session sends without a key is read with the port, the router locator and the DTLS message that
-- it was sent with, and with the id of its joiner, if the port and the locator have 16 bits, the id 8
-- bytes and the message less than 65536.
pub read-send_rly_tx :
    (s : JoinerSession) (dtls_message : List ℕ)
    → s.joiner_udp_port < 2 ^ 16
    → s.joiner_router_locator < 2 ^ 16
    → length s.joiner_id ≡ 8
    → length dtls_message < 2 ^ 16
    → (payload : List ℕ) × (send_rly_tx s dtls_message false [] ≡ ok payload)
      × (read_rly_rx payload
          ≡ ok (record {
            udp_port = s.joiner_udp_port;
            router_locator = s.joiner_router_locator;
            id = s.joiner_id;
            dtls_records = dtls_message;
          }))
unfolding send_rly_tx read_rly_rx append_kek relayed_tlvs
read-send_rly_tx s dtls_message port locator eight short =
    let (iid, there, back, same) = flip_twice s.joiner_id (omega arith) in
    let (payload, sent, received) =
      get_tlv_set-append_tlvs mesh_cop no_tlvs (relayed_tlvs s iid dtls_message)
        (relayed-IsSendable s iid dtls_message (same ∙ eight) short) in
    (
      payload,
      rw there (rw sent refl),
      rw received (read_relayed s iid dtls_message port locator back),
    )
