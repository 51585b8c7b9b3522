-- ===== src/Proxy.antt =====
-- src/library/udp_proxy.hpp, src/library/udp_proxy.cpp: requests in UDP_TX messages, and what comes back in UDP_RX messages.
-- The CoAP client of the proxy is the one of Coap: here it is given the requests and the bytes.
pub mod Received
pub mod Locator
pub mod Prefix
mod Tests
use ot_commissioner.Common.{
  no_bytes, not, ℕ, Bool, true, false, ◌&&◌, List, [], ◌∷◌, ◌++◌, Option, none, some, Result, ok,
  err, died, ErrorCode, length, has_flag, if◌then◌else◌, ◌==◌, verify, verify_or_die, assert, ◌>>=◌,
  ◌>>◌, invalid_args, invalid_state, bad_format,
}
use ot_commissioner.Bytes.{encode, decode}
use ot_commissioner.Address
use ot_commissioner.Address.{Address}
use ot_commissioner.Tlv.Types
use ot_commissioner.Tlv.{mesh_cop, empty_tlv, get_tlv}
use ot_commissioner.Tlv.Message.{append_tlvs}
use ot_commissioner.Dataset.{ActiveOperationalDataset}
use ot_commissioner.Dataset.Active.Fields.{mesh_local_prefix_bit}
use ot_commissioner.Commissioner.{required}

-- The endpoint's peer, and the prefix of the proxy.
pub record Proxy : Type 0 where
  pub peer_addr : Address
  pub peer_port : ℕ
  pub mesh_local_prefix : List ℕ

abbrev pub mesh_local_prefix_length : ℕ
mesh_local_prefix_length = 8

-- The payload that `ProxyEndpoint::Send` sends: `local_port` is the one of the DTLS session.
unfoldable pub send : ℕ → Bool → List ℕ → Proxy → Result (List ℕ)
send local_port is_connected request proxy = do
  verify (Address.is_valid proxy.peer_addr && Address.is_ipv6 proxy.peer_addr) invalid_state
  verify is_connected invalid_state
  append_tlvs [] (
      empty_tlv Types.ipv6_address proxy.peer_addr
      ∷ empty_tlv Types.udp_encapsulation
          (encode 2 (encode 2 [] local_port) proxy.peer_port ++ request)
      ∷ [])

-- What the bytes from `begin() + 4` on are: out of bounds where there are fewer than four.
unfoldable pub after_ports : List ℕ → Result (List ℕ)
after_ports (a ∷ b ∷ c ∷ d ∷ rest) = ok rest
after_ports _ = died

pub record UdpRx : Type 0 where
  pub source : Address
  pub port : ℕ
  pub received : List ℕ

unfoldable pub read_udp_rx : List ℕ → Result UdpRx
read_udp_rx payload = do
  src_addr ← required (get_tlv Types.ipv6_address mesh_cop payload)
  udp_encap ← required (get_tlv Types.udp_encapsulation mesh_cop payload)
  peer_addr ← Address.set src_addr.value
  peer_port ← decode 2 udp_encap.value
  rest ← after_ports udp_encap.value
  ok (record { source = peer_addr; port = peer_port; received = rest })

-- `HandleUdpRx`: what the CoAP client receives, if anything; an error is logged.
unfoldable pub after_udp_rx : Proxy → Result UdpRx → Result (Option (List ℕ) × Proxy)
after_udp_rx proxy (ok rx) =
    ok (some rx.received, record proxy { peer_addr = rx.source; peer_port = rx.port })
after_udp_rx proxy (err error) = ok (none, proxy)
after_udp_rx proxy died = died

unfoldable pub handle_udp_rx : List ℕ → Proxy → Result (Option (List ℕ) × Proxy)
handle_udp_rx payload proxy = after_udp_rx proxy (read_udp_rx payload)

unfoldable pub starts_with : ℕ → List ℕ → Bool
starts_with first [] = false
starts_with first (b ∷ bytes) = b == first

unfoldable pub set_mesh_local_prefix : List ℕ → Proxy → Result Proxy
set_mesh_local_prefix prefix proxy = do
  verify (length prefix == mesh_local_prefix_length) invalid_args
  verify (starts_with 0xfd prefix) invalid_args
  ok (record proxy { mesh_local_prefix = prefix })

unfoldable pub clear_mesh_local_prefix : Proxy → Proxy
clear_mesh_local_prefix proxy = record proxy { mesh_local_prefix = [] }

-- An error of `Set` fails the ASSERT.
unfoldable pub set_or_die : Result Address → Result Address
set_or_die (ok address) = ok address
set_or_die (err error) = died
set_or_die died = died

unfoldable pub get_anycast_locator : ℕ → Proxy → Result Address
get_anycast_locator aloc16 proxy = do
  assert (not (no_bytes proxy.mesh_local_prefix))
  set_or_die (
      Address.set
        (encode 2 (encode 2 (encode 2 (encode 2 proxy.mesh_local_prefix 0) 0xff) 0xfe00) aloc16))

-- What a request leads to: it is given to the CoAP client, the active dataset is requested with the flag of
-- the prefix, or the handler of the request is called with an error.
pub data ProxyCall : Type 0 where
  sends fetches : ProxyCall
  fails : ErrorCode → ProxyCall

-- `SendRequest` to an address.
unfoldable pub send_request_to : Address → ℕ → Proxy → Result (ProxyCall × Proxy)
send_request_to peer_addr peer_port proxy = do
  verify_or_die (Address.is_valid peer_addr && Address.is_ipv6 peer_addr)
  ok (sends, record proxy { peer_addr = peer_addr; peer_port = peer_port })

unfoldable pub send_request_known : ℕ → ℕ → Proxy → Result (ProxyCall × Proxy)
send_request_known aloc16 peer_port proxy = do
  peer_addr ← get_anycast_locator aloc16 proxy
  send_request_to peer_addr peer_port proxy

-- `SendRequest` to an anycast locator.
unfoldable pub send_request : ℕ → ℕ → Proxy → Result (ProxyCall × Proxy)
send_request aloc16 peer_port proxy =
    if no_bytes proxy.mesh_local_prefix
    then ok (fetches, proxy)
    else send_request_known aloc16 peer_port proxy

-- `onResponse` of FetchMeshLocalPrefix: what its handler is called with is the error of the response, and
-- not that of the prefix.
unfoldable pub keep_prefix : Proxy → Result Proxy → Result Proxy
keep_prefix proxy (ok next) = ok next
keep_prefix proxy (err error) = ok proxy
keep_prefix proxy died = died

unfoldable pub on_prefix :
    Result ActiveOperationalDataset → Proxy → Result (Option ErrorCode × Proxy)
on_prefix (ok dataset) proxy = do
  next ← keep_prefix proxy (do
    verify (has_flag dataset.present_flags mesh_local_prefix_bit) bad_format
    set_mesh_local_prefix dataset.mesh_local_prefix proxy)
  ok (none, next)
on_prefix (err error) proxy = ok (some error, proxy)
on_prefix died proxy = died

-- The handler that `SendRequest` has for it.
unfoldable pub after_prefix : ℕ → ℕ → Option ErrorCode × Proxy → Result (ProxyCall × Proxy)
after_prefix aloc16 peer_port (none, proxy) = send_request_known aloc16 peer_port proxy
after_prefix aloc16 peer_port (some error, proxy) = ok (fails error, proxy)

unfoldable pub on_fetched :
    ℕ → ℕ → Result ActiveOperationalDataset → Proxy → Result (ProxyCall × Proxy)
on_fetched aloc16 peer_port response proxy = do
  answer ← on_prefix response proxy
  after_prefix aloc16 peer_port answer
