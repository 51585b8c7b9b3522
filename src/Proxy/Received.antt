-- ===== src/Proxy/Received.antt =====
-- UDP_RX messages in src/library/udp_proxy.cpp: what HandleUdpRx reads of any payload, and of the payload that
-- ProxyEndpoint::Send makes.
use ot_commissioner.Common.{
  ℕ, ◌+◌, ◌<◌, ◌≤◌, ◌≡◌, ◌^◌, ◌&&◌, refl, arith, List, [], ◌∷◌, ◌++◌, Result, ok, err, died, length,
  length-append, true, All, some, ==_iff, Returns, returned, failed, Yields, >>=-Returns,
  guard-Returns,
}
use ot_commissioner.Bytes.{encode, decode}
use ot_commissioner.Bytes.RoundTrip.{decode-encode}
use ot_commissioner.Address
use ot_commissioner.Address.{Address}
use ot_commissioner.Tlv.Types
use ot_commissioner.Tlv.{
  Tlv, mesh_cop, no_tlvs, get_tlv_set, get_tlv, found_in, empty_tlv, insert_tlv, scope_rules,
}
use ot_commissioner.Tlv.Length.{find_rule, mesh_cop_rules, allows, LengthRule}
use ot_commissioner.Tlv.Message.{insert_all, IsSendable, get_tlv_set-append_tlvs}
use ot_commissioner.Dataset.Rows.{row-is_valid}
use ot_commissioner.Commissioner.{required}
use ot_commissioner.Bytes.Bounds.{decode-Yields}
use ot_commissioner.Tlv.Bounds.{is_valid-allows}
use ot_commissioner.Tlv.Parse.{get_tlv-is_valid}
use ot_commissioner.Commissioner.Responses.{required-Returns, required-some, Yields-Returns}
use ot_commissioner.Proxy.{
  Proxy, UdpRx, send, after_ports, read_udp_rx, after_udp_rx, handle_udp_rx,
}

encapsulation-long :
    (payload : List ℕ) (tlv : Tlv)
    → get_tlv Types.udp_encapsulation mesh_cop payload ≡ some tlv
    → 4 ≤ length tlv.value
unfolding find_rule mesh_cop_rules scope_rules allows
encapsulation-long payload tlv e =
    let (valid, scope, type) = get_tlv-is_valid Types.udp_encapsulation mesh_cop payload tlv e in
    ground (arith, is_valid-allows tlv (LengthRule.at_least 4) valid (rw (scope, type) refl))

after_ports-Yields : (bytes : List ℕ) → 4 ≤ length bytes → Yields (after_ports bytes)
unfolding after_ports
after_ports-Yields (a ∷ b ∷ c ∷ d ∷ rest) le = (rest, refl)
after_ports-Yields (a ∷ b ∷ c ∷ []) le = absurd (omega arith)
after_ports-Yields (a ∷ b ∷ []) le = absurd (omega arith)
after_ports-Yields (a ∷ []) le = absurd (omega arith)
after_ports-Yields [] le = absurd (omega arith)

set-Returns : (raw : List ℕ) → Returns (Address.set raw)
unfolding Address.set
set-Returns raw = guard-Returns _ _ _ (returned raw)

read_udp_rx-Returns : (payload : List ℕ) → Returns (read_udp_rx payload)
unfolding read_udp_rx
read_udp_rx-Returns payload = >>=-Returns (required-Returns _) (λ src found.
    >>=-Returns (required-Returns _) (λ encap there.
      >>=-Returns (set-Returns src.value) (λ address e.
        let long = encapsulation-long payload encap (required-some _ encap there) in
        >>=-Returns (Yields-Returns (decode-Yields 2 encap.value (omega arith))) (λ port f.
          >>=-Returns (Yields-Returns (after_ports-Yields encap.value long))
            (λ rest g. returned _)))))

after_udp_rx-Yields :
    (proxy : Proxy) (read : Result UdpRx) → Returns read → Yields (after_udp_rx proxy read)
unfolding after_udp_rx
after_udp_rx-Yields proxy (ok rx) (returned a) = (_, refl)
after_udp_rx-Yields proxy (err e) (failed f) = (_, refl)
after_udp_rx-Yields proxy died x' = elim x' [ ]

-- A UDP_RX message is handled to its end, whatever its payload: the ports and the bytes after them are
-- not read out of the bounds of the TLV.
pub handle_udp_rx-Yields : (payload : List ℕ) (proxy : Proxy) → Yields (handle_udp_rx payload proxy)
unfolding handle_udp_rx
handle_udp_rx-Yields payload proxy =
    after_udp_rx-Yields proxy (read_udp_rx payload) (read_udp_rx-Returns payload)

pub ipv6_lem :
    (address : Address)
    → length address ≡ 16
    → Address.is_valid address && Address.is_ipv6 address ≡ true
unfolding Address.is_valid Address.is_ipv6
ipv6_lem [] e = absurd (omega arith)
ipv6_lem (b ∷ bytes) e = (==_iff (length (b ∷ bytes)) 16).1 e

pub set_lem : (raw : List ℕ) → length raw ≡ 16 → Address.set raw ≡ ok raw
unfolding Address.set
set_lem raw e = rw e refl

module _ (local_port : ℕ) (request : List ℕ) (proxy : Proxy) where
  ports : List ℕ
  ports = encode 2 (encode 2 [] local_port) proxy.peer_port

  unfoldable tlvs : List Tlv
  unfolding ports
  tlvs =
      empty_tlv Types.ipv6_address proxy.peer_addr
      ∷ empty_tlv Types.udp_encapsulation (ports ++ request)
      ∷ []

  length-ports : length ports ≡ 4
  unfolding ports encode
  length-ports = refl

  tlvs-IsSendable :
      length proxy.peer_addr ≡ 16 → length request + 4 < 2 ^ 16 → All (IsSendable mesh_cop) tlvs
  unfolding tlvs find_rule mesh_cop_rules allows
  tlvs-IsSendable sixteen short = (
    (
      refl,
      row-is_valid Types.ipv6_address (LengthRule.exactly 16) proxy.peer_addr (omega arith) refl
          ((==_iff (length proxy.peer_addr) 16).1 sixteen),
      λ e. absurd (omega arith),
    ),
    (
      (
        refl,
        row-is_valid Types.udp_encapsulation (LengthRule.at_least 4) (ports ++ request)
            (omega (arith, length-ports, length-append ports request)) refl
            (ground (arith, length-ports, length-append ports request)),
        λ e. absurd (omega arith),
      ),
      tt,
    ),
  )

  decode-ports : local_port < 2 ^ 16 → decode 2 (ports ++ request) ≡ ok local_port
  unfolding ports encode
  decode-ports port = decode-encode 2 local_port (encode 2 [] proxy.peer_port ++ request) port

  after_ports_lem : after_ports (ports ++ request) ≡ ok request
  unfolding after_ports ports encode
  after_ports_lem = refl

  read_tlvs :
      (payload : List ℕ)
      → local_port < 2 ^ 16
      → length proxy.peer_addr ≡ 16
      → get_tlv_set mesh_cop no_tlvs payload ≡ ok (insert_all no_tlvs tlvs)
      → read_udp_rx payload
        ≡ ok (record { source = proxy.peer_addr; port = local_port; received = request })
  unfolding read_udp_rx tlvs get_tlv found_in required insert_all insert_tlv no_tlvs
  read_tlvs payload port sixteen e =
      rw (e, set_lem proxy.peer_addr sixteen, decode-ports port, after_ports_lem) refl

  -- What the endpoint sends in a UDP_TX message is read as a UDP_RX message with the address of its peer,
  -- its own port and the same request, if the address is an IPv6 one, the port has 16 bits and the request
  -- less than 65532 bytes.
  pub read-send :
      local_port < 2 ^ 16
      → length proxy.peer_addr ≡ 16
      → length request + 4 < 2 ^ 16
      → (payload : List ℕ) × (send local_port true request proxy ≡ ok payload)
        × (read_udp_rx payload
            ≡ ok (record { source = proxy.peer_addr; port = local_port; received = request }))
  unfolding send read_udp_rx tlvs ports
  read-send port sixteen short =
      let (payload, sent, read) =
        get_tlv_set-append_tlvs mesh_cop no_tlvs tlvs (tlvs-IsSendable sixteen short) in
      (payload, rw (ipv6_lem proxy.peer_addr sixteen) sent, read_tlvs payload port sixteen read)
