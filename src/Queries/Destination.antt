-- ===== src/Queries/Destination.antt =====
-- The destination of a query in src/library/commissioner_impl.cpp.
use ot_commissioner.Common.{
  ℕ, ◌≡◌, refl, sym, ◌∙◌, Bool, true, false, ◌&&◌, ◌==◌, length, List, [], All, Result, ok, err,
  died, ErrorCode, Bool-cases, inl, inr, ==_iff, arith, invalid_args,
}
use ot_commissioner.Bytes.{encode}
use ot_commissioner.Address
use ot_commissioner.Address.{Address}
use ot_commissioner.Tlv.Types
use ot_commissioner.Tlv.{Tlv, mesh_cop, empty_tlv}
use ot_commissioner.Tlv.Length.{find_rule, mesh_cop_rules}
use ot_commissioner.Tlv.Message.{IsSendable}
use ot_commissioner.Proxy.{Proxy, send_request_to}
use ot_commissioner.Proxy.Received.{ipv6_lem, set_lem}
use ot_commissioner.Queries.{
  has_channels, query_payload, announce_begin_payload, pan_id_query_payload, energy_scan_payload,
  send_query, announce_begin, pan_id_query, energy_scan, at_exit,
}
use ot_commissioner.Queries.Payloads.{number, query_payload-built, query_payload-refused}

-- The call aborts.
unfoldable pub dies : {A : Type 0} → Result A → Bool
dies (ok a) = false
dies (err error) = false
dies died = true

and_false : (a : Bool) → a && false ≡ false
and_false true = refl
and_false false = refl

and_true : (a : Bool) → a && true ≡ a
and_true true = refl
and_true false = refl

not_sixteen : (raw : List ℕ) → (length raw == 4) ≡ true → (length raw == 16) ≡ false
not_sixteen raw e = ground arith

module _ (raw payload : List ℕ) (proxy : Proxy) where
  four-dies :
      (is_active : Bool)
      → (length raw == 4) ≡ true
      → dies (at_exit (send_query (Address.set raw) is_active (ok payload) proxy)) ≡ is_active
  unfolding dies at_exit send_query send_request_to Address.set Address.is_ipv6
  four-dies true four = rw (four, not_sixteen raw four, and_false (Address.is_valid raw)) refl
  four-dies false four = rw four refl

  sixteen-dies :
      (is_active : Bool)
      → (length raw == 16) ≡ true
      → dies (at_exit (send_query (Address.set raw) is_active (ok payload) proxy)) ≡ false
  unfolding dies at_exit send_query send_request_to
  sixteen-dies true sixteen =
      let e = (==_iff (length raw) 16).0 sixteen in rw (set_lem raw e, ipv6_lem raw e) refl
  sixteen-dies false sixteen = let e = (==_iff (length raw) 16).0 sixteen in rw (set_lem raw e) refl

  built-dies :
      (is_active : Bool)
      → dies (at_exit (send_query (Address.set raw) is_active (ok payload) proxy))
        ≡ (is_active && length raw == 4)
  built-dies is_active = elim (Bool-cases (length raw == 4)) [
    | inl four ↦ rw (four-dies is_active four, four) (sym (and_true is_active))
    | inr other ↦ elim (Bool-cases (length raw == 16)) [
      | inl sixteen ↦ rw (sixteen-dies is_active sixteen, other) (sym (and_false is_active))
      | inr neither ↦
          unfold dies at_exit send_query Address.set in
          rw (other, neither, and_false is_active) refl
    ]
  ]

refused-dies :
    (raw : List ℕ) (proxy : Proxy) (is_active : Bool) (error : ErrorCode)
    → dies (at_exit (send_query (Address.set raw) is_active (err error) proxy)) ≡ false
unfolding dies at_exit send_query Address.set
refused-dies raw proxy is_active error = ground arith

-- A query of TLVs that can be sent.
query-dies :
    (raw : List ℕ) (is_active : Bool) (session_id channel_mask : ℕ) (tlvs : List Tlv)
    (proxy : Proxy)
    → All (IsSendable mesh_cop) tlvs
    → dies (
        at_exit (
          send_query
            (Address.set raw)
            is_active
            (query_payload session_id channel_mask tlvs)
            proxy))
      ≡ (is_active && (has_channels channel_mask && length raw == 4))
query-dies raw is_active session_id channel_mask tlvs proxy all =
    elim (Bool-cases (has_channels channel_mask)) [
      | inl some_channel ↦
          let (payload, built) =
            query_payload-built session_id channel_mask tlvs all some_channel in
          rw (built, some_channel) (built-dies raw payload proxy is_active)
      | inr none_of_them ↦
          rw (query_payload-refused session_id channel_mask tlvs none_of_them, none_of_them)
            (refused-dies raw proxy is_active invalid_args ∙ sym (and_false is_active))
    ]

-- Whatever the numbers, AnnounceBegin, PanIdQuery and EnergyScan abort if and only if the commissioner is
-- active, the mask has a channel of 11 to 26, and the destination is an IPv4 address; the bytes of the
-- destination are those that the system read of the text, if it read any.
pub queries-dies :
    (raw : List ℕ) (is_active : Bool) (session_id channel_mask count period : ℕ)
    (scan_duration pan_id : ℕ) (proxy : Proxy)
    → let dst = Address.set raw in
      let aborts = is_active && (has_channels channel_mask && length raw == 4) in
      (dies (at_exit (announce_begin dst is_active session_id channel_mask count period proxy))
        ≡ aborts)
      × (dies (at_exit (pan_id_query dst is_active session_id channel_mask pan_id proxy)) ≡ aborts)
      × (dies (
            at_exit
              (energy_scan dst is_active session_id channel_mask count period scan_duration proxy))
          ≡ aborts)
unfolding announce_begin announce_begin_payload pan_id_query pan_id_query_payload energy_scan
    energy_scan_payload find_rule mesh_cop_rules
queries-dies raw is_active session_id channel_mask count period scan_duration pan_id proxy =
    let n : IsSendable mesh_cop (empty_tlv Types.count (encode 1 [] count)) =
      (refl, number Types.count 1 count (omega arith) refl, λ e. absurd (omega arith)) in
    let p : IsSendable mesh_cop (empty_tlv Types.period (encode 2 [] period)) =
      (refl, number Types.period 2 period (omega arith) refl, λ e. absurd (omega arith)) in
    let d : IsSendable mesh_cop (empty_tlv Types.scan_duration (encode 2 [] scan_duration)) = (
      refl,
      number Types.scan_duration 2 scan_duration (omega arith) refl,
      λ e. absurd (omega arith),
    ) in
    let q : IsSendable mesh_cop (empty_tlv Types.pan_id (encode 2 [] pan_id)) =
      (refl, number Types.pan_id 2 pan_id (omega arith) refl, λ e. absurd (omega arith)) in
    (
      query-dies raw is_active session_id channel_mask _ proxy (n, (p, tt)),
      query-dies raw is_active session_id channel_mask _ proxy (q, tt),
      query-dies raw is_active session_id channel_mask _ proxy (n, (p, (d, tt))),
    )
