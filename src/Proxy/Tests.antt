-- ===== src/Proxy/Tests.antt =====
-- The UDP proxy, at concrete messages.
use ot_commissioner.Common.{
  ℕ, ◌≡◌, refl, arith, true, List, [], ◌∷◌, ok, err, died, invalid_state, Yields,
}
use ot_commissioner.Address
use ot_commissioner.Address.{Address}
use ot_commissioner.Dataset.{ActiveOperationalDataset}
use ot_commissioner.App.Examples.{fresh}
use ot_commissioner.Proxy.{
  starts_with, Proxy, sends, send, read_udp_rx, handle_udp_rx, send_request, on_fetched,
}
use ot_commissioner.Proxy.Received.{read-send, handle_udp_rx-Yields}
use ot_commissioner.Proxy.Locator.{locator, is_prefix}
use ot_commissioner.Proxy.Prefix.{is_usable, on_fetched-send_request, on_fetched-died}

abbrev peer : Address
peer = 0xfd ∷ 0 ∷ 0 ∷ 0 ∷ 0 ∷ 0 ∷ 0 ∷ 0 ∷ 0 ∷ 0 ∷ 0 ∷ 0xff ∷ 0xfe ∷ 0 ∷ 0xfc ∷ 0 ∷ []

abbrev proxy : Proxy
proxy = record { peer_addr = peer; peer_port = 61631; mesh_local_prefix = [] }

abbrev prefix : List ℕ
prefix = 0xfd ∷ 1 ∷ 2 ∷ 3 ∷ 4 ∷ 5 ∷ 6 ∷ 7 ∷ []

abbrev dataset : ActiveOperationalDataset
dataset = record fresh { mesh_local_prefix = prefix; present_flags = 0xffff }

-- The address is none of IPv6, and nothing is sent.
wrong_peer : send 5 true [] (record proxy { peer_addr = 1 ∷ 2 ∷ 3 ∷ 4 ∷ [] }) ≡ err invalid_state
unfolding send Address.is_ipv6 Address.is_valid
wrong_peer = refl

read-send_example :
    (payload : List ℕ) × (send 49191 true (64 ∷ 1 ∷ 0 ∷ 7 ∷ []) proxy ≡ ok payload)
    × (read_udp_rx payload
        ≡ ok (record { source = peer; port = 49191; received = 64 ∷ 1 ∷ 0 ∷ 7 ∷ [] }))
read-send_example = read-send 49191 (64 ∷ 1 ∷ 0 ∷ 7 ∷ []) proxy (omega arith) refl (omega arith)

handle_udp_rx-Yields_example : Yields (handle_udp_rx (48 ∷ 1 ∷ 0 ∷ []) proxy)
handle_udp_rx-Yields_example = handle_udp_rx-Yields (48 ∷ 1 ∷ 0 ∷ []) proxy

-- The leader's locator, 0xfc00.
on_fetched-send_request_example :
    (on_fetched 0xfc00 61631 (ok dataset) proxy
      ≡ send_request 0xfc00 61631 (record proxy { mesh_local_prefix = prefix }))
    × (send_request 0xfc00 61631 (record proxy { mesh_local_prefix = prefix })
        ≡ ok (
          sends,
          record proxy {
            mesh_local_prefix = prefix;
            peer_addr = locator prefix 0xfc00;
            peer_port = 61631;
          },
        ))
unfolding is_usable is_prefix starts_with
on_fetched-send_request_example = on_fetched-send_request 0xfc00 61631 dataset proxy refl

-- The prefix is empty.
on_fetched-died_example :
    on_fetched 0xfc00 61631 (ok (record dataset { mesh_local_prefix = [] })) proxy ≡ died
unfolding is_usable is_prefix starts_with
on_fetched-died_example =
    on_fetched-died 0xfc00 61631 (record dataset { mesh_local_prefix = [] }) proxy refl refl
