-- ===== src/Address.antt =====
-- src/common/address.hpp, src/common/address.cpp: the bytes of an IP address. Its text form, and the address of a
-- socket, are code of the system.
use ot_commissioner.Common.{
  ℕ, Bool, true, false, ◌||◌, List, [], ◌∷◌, Result, ok, length, ◌==◌, verify, ◌>>◌, invalid_args,
}

abbrev pub Address : Type 0
Address = List ℕ

abbrev pub ipv4_size : ℕ
ipv4_size = 4

abbrev pub ipv6_size : ℕ
ipv6_size = 16

abbrev pub multicast_prefix : ℕ
multicast_prefix = 0xff

unfoldable pub is_valid : Address → Bool
is_valid [] = false
is_valid (b ∷ bytes) = true

unfoldable pub is_ipv4 : Address → Bool
is_ipv4 address = length address == ipv4_size

unfoldable pub is_ipv6 : Address → Bool
is_ipv6 address = length address == ipv6_size

unfoldable pub is_multicast : Address → Bool
is_multicast [] = false
is_multicast (b ∷ bytes) = b == multicast_prefix

-- `Set`, of raw bytes.
unfoldable pub set : List ℕ → Result Address
set raw = do verify (length raw == ipv4_size || (length raw == ipv6_size)) invalid_args; ok raw
