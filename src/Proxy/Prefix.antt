-- ===== src/Proxy/Prefix.antt =====
-- FetchMeshLocalPrefix of src/library/udp_proxy.cpp: what becomes of a request that waits for the prefix.
use ot_commissioner.Common.{
  ℕ, ◌≡◌, refl, sym, ◌∙◌, arith, Bool, true, false, ◌&&◌, [], ok, died, has_flag, verify, ◌>>◌,
  bad_format,
}
use ot_commissioner.Dataset.{ActiveOperationalDataset}
use ot_commissioner.Dataset.Active.Fields.{mesh_local_prefix_bit}
use ot_commissioner.Proxy.{
  Proxy, sends, set_mesh_local_prefix, get_anycast_locator, keep_prefix, on_prefix, after_prefix,
  on_fetched, send_request_known, send_request,
}
use ot_commissioner.Proxy.Locator.{
  locator, is_prefix, set_mesh_local_prefix_lem, send_request_known_lem, send_request_lem,
}

-- The dataset has a prefix that SetMeshLocalPrefix takes.
unfoldable pub is_usable : ActiveOperationalDataset → Bool
is_usable dataset =
    has_flag dataset.present_flags mesh_local_prefix_bit && is_prefix dataset.mesh_local_prefix

both : (a b : Bool) → a && b ≡ true → (a ≡ true) × (b ≡ true)
both true b e = (refl, e)
both false b e = cc

on_fetched-known :
    (aloc16 peer_port : ℕ) (dataset : ActiveOperationalDataset) (proxy : Proxy)
    → is_usable dataset ≡ true
    → on_fetched aloc16 peer_port (ok dataset) proxy
      ≡ send_request_known aloc16 peer_port
          (record proxy { mesh_local_prefix = dataset.mesh_local_prefix })
unfolding on_fetched on_prefix after_prefix keep_prefix is_usable
on_fetched-known aloc16 peer_port dataset proxy e =
    let (flag, prefix) =
      both (has_flag dataset.present_flags mesh_local_prefix_bit)
        (is_prefix dataset.mesh_local_prefix) e in
    rw (flag, set_mesh_local_prefix_lem dataset.mesh_local_prefix proxy prefix) refl

usable_prefix :
    (dataset : ActiveOperationalDataset)
    → is_usable dataset ≡ true
    → is_prefix dataset.mesh_local_prefix ≡ true
unfolding is_usable
usable_prefix dataset e =
    (both (has_flag dataset.present_flags mesh_local_prefix_bit)
      (is_prefix dataset.mesh_local_prefix) e).1

-- A request that waits for the prefix, when the active dataset comes with one that can be used, is sent as
-- it is where that prefix is known: to the address of the prefix, the identifier 0000:00ff:fe00 and the
-- locator, and the prefix is kept.
pub on_fetched-send_request :
    (aloc16 peer_port : ℕ) (dataset : ActiveOperationalDataset) (proxy : Proxy)
    → is_usable dataset ≡ true
    → let known = record proxy { mesh_local_prefix = dataset.mesh_local_prefix } in
      (on_fetched aloc16 peer_port (ok dataset) proxy ≡ send_request aloc16 peer_port known)
      × (send_request aloc16 peer_port known
          ≡ ok (
            sends,
            record known {
              peer_addr = locator dataset.mesh_local_prefix aloc16;
              peer_port = peer_port;
            },
          ))
on_fetched-send_request aloc16 peer_port dataset proxy e =
    let known = record proxy { mesh_local_prefix = dataset.mesh_local_prefix } in
    let prefix = usable_prefix dataset e in
    (
      on_fetched-known aloc16 peer_port dataset proxy e
          ∙ send_request_known_lem aloc16 peer_port known prefix
          ∙ sym (send_request_lem aloc16 peer_port known prefix),
      send_request_lem aloc16 peer_port known prefix,
    )

unusable :
    (dataset : ActiveOperationalDataset) (proxy : Proxy)
    → is_usable dataset ≡ false
    → keep_prefix proxy (do
      verify (has_flag dataset.present_flags mesh_local_prefix_bit) bad_format
      set_mesh_local_prefix dataset.mesh_local_prefix proxy)
      ≡ ok proxy
unfolding keep_prefix is_usable is_prefix set_mesh_local_prefix
unusable dataset proxy e = ground (arith, e)

-- A request that waits for the prefix aborts the commissioner, when the active dataset comes without a
-- prefix that can be used and none is known.
pub on_fetched-died :
    (aloc16 peer_port : ℕ) (dataset : ActiveOperationalDataset) (proxy : Proxy)
    → is_usable dataset ≡ false
    → proxy.mesh_local_prefix ≡ []
    → on_fetched aloc16 peer_port (ok dataset) proxy ≡ died
unfolding on_fetched on_prefix after_prefix send_request_known get_anycast_locator
on_fetched-died aloc16 peer_port dataset proxy e empty = rw (unusable dataset proxy e, empty) refl
