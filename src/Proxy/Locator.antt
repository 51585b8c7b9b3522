-- ===== src/Proxy/Locator.antt =====
-- GetAnycastLocator and SendRequest of src/library/udp_proxy.cpp, for a prefix that SetMeshLocalPrefix takes.
use ot_commissioner.Common.{
  ℕ, ◌≡◌, ◌/◌, ◌%◌, refl, arith, ◌∙◌, Bool, true, false, ◌&&◌, List, [], ◌∷◌, ◌++◌, ok, length,
  ◌==◌, no_bytes, length-append,
}
use ot_commissioner.Bytes.{encode}
use ot_commissioner.Address.{Address}
use mathlib.Core.List.{append_assoc}
use ot_commissioner.Proxy.Received.{set_lem, ipv6_lem}
use ot_commissioner.Proxy.{
  Proxy, starts_with, set_mesh_local_prefix, set_or_die, get_anycast_locator, send_request_to,
  send_request_known, send_request, sends,
}

-- The prefix, and the interface identifier 0000:00ff:fe00 with the locator.
abbrev pub locator : List ℕ → ℕ → Address
locator prefix aloc16 =
    prefix ++ (0 ∷ 0 ∷ 0 ∷ 0xff ∷ 0xfe ∷ 0 ∷ aloc16 / 256 % 256 ∷ aloc16 % 256 ∷ [])

-- What SetMeshLocalPrefix lets pass.
unfoldable pub is_prefix : List ℕ → Bool
is_prefix prefix = length prefix == 8 && starts_with 0xfd prefix

sixteen : (prefix : List ℕ) (aloc16 : ℕ) → length prefix ≡ 8 → length (locator prefix aloc16) ≡ 16
sixteen prefix aloc16 e = omega (arith, length-append prefix (locator [] aloc16))

pub set_mesh_local_prefix_lem :
    (prefix : List ℕ) (proxy : Proxy)
    → is_prefix prefix ≡ true
    → set_mesh_local_prefix prefix proxy ≡ ok (record proxy { mesh_local_prefix = prefix })
unfolding set_mesh_local_prefix is_prefix
set_mesh_local_prefix_lem prefix proxy e = ground (arith, e)

length_prefix : (prefix : List ℕ) → is_prefix prefix ≡ true → length prefix ≡ 8
unfolding is_prefix
length_prefix prefix e = ground (arith, e)

some_bytes : (prefix : List ℕ) → length prefix ≡ 8 → no_bytes prefix ≡ false
some_bytes [] e = absurd (omega arith)
some_bytes (b ∷ prefix) e = refl

encode_iid :
    (prefix : List ℕ) (aloc16 : ℕ)
    → encode 2 (encode 2 (encode 2 (encode 2 prefix 0) 0xff) 0xfe00) aloc16 ≡ locator prefix aloc16
unfolding encode
encode_iid prefix aloc16 =
    append_assoc ((prefix ++ (0 ∷ 0 ∷ [])) ++ (0 ∷ 0xff ∷ [])) (0xfe ∷ 0 ∷ []) _
    ∙ append_assoc (prefix ++ (0 ∷ 0 ∷ [])) (0 ∷ 0xff ∷ []) _
    ∙ append_assoc prefix (0 ∷ 0 ∷ []) _

get_anycast_locator_lem :
    (aloc16 : ℕ) (proxy : Proxy)
    → is_prefix proxy.mesh_local_prefix ≡ true
    → get_anycast_locator aloc16 proxy ≡ ok (locator proxy.mesh_local_prefix aloc16)
unfolding get_anycast_locator set_or_die
get_anycast_locator_lem aloc16 proxy e =
    let eight = length_prefix proxy.mesh_local_prefix e in
    rw
      (
        some_bytes proxy.mesh_local_prefix eight,
        encode_iid proxy.mesh_local_prefix aloc16,
        set_lem (locator proxy.mesh_local_prefix aloc16)
            (sixteen proxy.mesh_local_prefix aloc16 eight),
      )
      refl

pub send_request_known_lem :
    (aloc16 peer_port : ℕ) (proxy : Proxy)
    → is_prefix proxy.mesh_local_prefix ≡ true
    → send_request_known aloc16 peer_port proxy
      ≡ ok (
        sends,
        record proxy { peer_addr = locator proxy.mesh_local_prefix aloc16; peer_port = peer_port },
      )
unfolding send_request_known send_request_to
send_request_known_lem aloc16 peer_port proxy e =
    rw
      (
        get_anycast_locator_lem aloc16 proxy e,
        ipv6_lem (locator proxy.mesh_local_prefix aloc16)
            (sixteen proxy.mesh_local_prefix aloc16 (length_prefix proxy.mesh_local_prefix e)),
      )
      refl

pub send_request_lem :
    (aloc16 peer_port : ℕ) (proxy : Proxy)
    → is_prefix proxy.mesh_local_prefix ≡ true
    → send_request aloc16 peer_port proxy
      ≡ ok (
        sends,
        record proxy { peer_addr = locator proxy.mesh_local_prefix aloc16; peer_port = peer_port },
      )
unfolding send_request
send_request_lem aloc16 peer_port proxy e =
    rw (some_bytes proxy.mesh_local_prefix (length_prefix proxy.mesh_local_prefix e))
      (send_request_known_lem aloc16 peer_port proxy e)
