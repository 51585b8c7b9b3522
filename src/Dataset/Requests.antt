-- ===== src/Dataset/Requests.antt =====
-- The TLV types that a MGMT_GET request asks for: GetActiveOperationalDatasetTlvs,
-- GetPendingOperationalDatasetTlvs, GetCommissionerDatasetTlvs and GetBbrDatasetTlvs of
-- src/library/commissioner_impl.cpp, and what the encoders of the datasets write.
use ot_commissioner.Common.{
  ℕ, ◌≡◌, refl, sym, arith, Bool, true, false, ◌&&◌, ◌||◌, List, [], ◌∷◌, ◌++◌, has_flag, ◌==◌,
  if◌then◌else◌, ap, ◌∙◌, Option, none, some, Result, ok, All,
}
use ot_commissioner.Tlv.Types
use ot_commissioner.Tlv.{Tlv, TlvSet, mesh_cop, no_tlvs, get_tlv_set, empty_tlv}
use ot_commissioner.Dataset.{ActiveOperationalDataset, PendingOperationalDataset}
use ot_commissioner.Dataset.Rows.{Row, IsRow, insert_rows, append_rows, get_tlv_set-append_rows}
use ot_commissioner.Dataset.Active.{encode_active}
use ot_commissioner.Dataset.Active.Encode.{IsActive, active_rows, encode_active-rows, rows-IsRow}
use ot_commissioner.Dataset.Pending.{encode_pending}
use ot_commissioner.Dataset.Pending.RoundTrip.{
  IsPending, delay_row, timestamp_row, more_rows, pending_rows, encode_pending-rows,
  pending_rows-IsRow,
}
use ot_commissioner.Dataset.Commissioner.{CommissionerDataset, encode_commissioner}
use ot_commissioner.Dataset.Commissioner.RoundTrip.{
  IsCommissioner, commissioner_rows, encode_commissioner-rows, commissioner_rows-IsRow,
}
use ot_commissioner.Tlv.Parameters.{contains}
use ot_commissioner.Dataset.Active.Fields.{
  active_timestamp_bit, channel_bit, channel_mask_bit, extended_pan_id_bit, mesh_local_prefix_bit,
  network_master_key_bit, network_name_bit, pan_id_bit, pskc_bit, security_policy_bit,
}
use ot_commissioner.Dataset.Pending.{delay_timer_bit, pending_timestamp_bit}
use ot_commissioner.Dataset.Commissioner.{
  session_id_bit, border_agent_locator_bit, steering_data_bit, ae_steering_data_bit,
  nmkp_steering_data_bit, joiner_udp_port_bit, ae_udp_port_bit, nmkp_udp_port_bit,
}

abbrev pub tri_hostname_bit : ℕ
tri_hostname_bit = 32768

abbrev pub registrar_hostname_bit : ℕ
registrar_hostname_bit = 16384

abbrev pub registrar_ipv6_addr_bit : ℕ
registrar_ipv6_addr_bit = 8192

-- `EncodeTlvType`
unfoldable pub encode_tlv_type : List ℕ → ℕ → List ℕ
encode_tlv_type buf type = buf ++ (type ∷ [])

-- `if (aDatasetFlags & bit) { EncodeTlvType(tlvTypes, type); }`
unfoldable pub request_present : ℕ → ℕ → ℕ → List ℕ → List ℕ
request_present flags mask type buf = if has_flag flags mask then encode_tlv_type buf type else buf

unfoldable pub get_active_operational_dataset_tlvs : ℕ → List ℕ
get_active_operational_dataset_tlvs flags =
    let t = [] in
    let t = request_present flags active_timestamp_bit Types.active_timestamp t in
    let t = request_present flags channel_bit Types.channel t in
    let t = request_present flags channel_mask_bit Types.channel_mask t in
    let t = request_present flags extended_pan_id_bit Types.extended_pan_id t in
    let t = request_present flags mesh_local_prefix_bit Types.network_mesh_local_prefix t in
    let t = request_present flags network_master_key_bit Types.network_master_key t in
    let t = request_present flags network_name_bit Types.network_name t in
    let t = request_present flags pan_id_bit Types.pan_id t in
    let t = request_present flags pskc_bit Types.pskc t in
    request_present flags security_policy_bit Types.security_policy t

unfoldable pub get_pending_operational_dataset_tlvs : ℕ → List ℕ
get_pending_operational_dataset_tlvs flags =
    let t = get_active_operational_dataset_tlvs flags in
    let t = request_present flags delay_timer_bit Types.delay_timer t in
    request_present flags pending_timestamp_bit Types.pending_timestamp t

unfoldable pub get_commissioner_dataset_tlvs : ℕ → List ℕ
get_commissioner_dataset_tlvs flags =
    let t = [] in
    let t = request_present flags session_id_bit Types.commissioner_session_id t in
    let t = request_present flags border_agent_locator_bit Types.border_agent_locator t in
    let t = request_present flags steering_data_bit Types.steering_data t in
    let t = request_present flags ae_steering_data_bit Types.ae_steering_data t in
    let t = request_present flags nmkp_steering_data_bit Types.nmkp_steering_data t in
    let t = request_present flags joiner_udp_port_bit Types.joiner_udp_port t in
    let t = request_present flags ae_udp_port_bit Types.ae_udp_port t in
    request_present flags nmkp_udp_port_bit Types.nmkp_udp_port t

unfoldable pub get_bbr_dataset_tlvs : ℕ → List ℕ
get_bbr_dataset_tlvs flags =
    let t = [] in
    let t = request_present flags tri_hostname_bit Types.tri_hostname t in
    let t = request_present flags registrar_hostname_bit Types.registrar_hostname t in
    request_present flags registrar_ipv6_addr_bit Types.registrar_ipv6_address t

contains-append :
    (xs : List ℕ) (t type : ℕ) → contains (xs ++ (t ∷ [])) type ≡ (contains xs type || type == t)
unfolding contains
contains-append [] t type = ground arith
contains-append (x ∷ xs) t type = ground (arith, contains-append xs t type)

contains-request_present :
    (flags mask t : ℕ) (buf : List ℕ) (type : ℕ)
    → contains (request_present flags mask t buf) type
      ≡ (contains buf type || (has_flag flags mask && type == t))
unfolding request_present encode_tlv_type
contains-request_present flags mask t buf type = ground (arith, contains-append buf t type)

-- The types of the rows that are present, behind those that the buffer holds.
unfoldable pub request_rows : List Row → List ℕ → List ℕ
request_rows [] buf = buf
request_rows ((present, type, value) ∷ rows) buf =
    request_rows rows (if present then encode_tlv_type buf type else buf)

unfoldable pub is_some : Option Tlv → Bool
is_some none = false
is_some (some tlv) = true

request_step :
    (set : TlvSet) (present : Bool) (row_type : ℕ) (value buf : List ℕ) (type : ℕ)
    → is_some (set type) ≡ contains buf type
    → is_some (if type == row_type && present then some (empty_tlv row_type value) else set type)
      ≡ contains (if present then encode_tlv_type buf row_type else buf) type
unfolding is_some encode_tlv_type
request_step set present row_type value buf type e =
    ground (arith, contains-append buf row_type type)

-- The TLVs that are written for rows are those of the types that are asked for.
pub request_rows-insert_rows :
    (rows : List Row) (set : TlvSet) (buf : List ℕ) (type : ℕ)
    → is_some (set type) ≡ contains buf type
    → is_some (insert_rows set rows type) ≡ contains (request_rows rows buf) type
unfolding insert_rows request_rows
request_rows-insert_rows [] set buf type e = e
request_rows-insert_rows ((present, row_type, value) ∷ rows) set buf type e =
    request_rows-insert_rows rows _ _ type (request_step set present row_type value buf type e)

-- The encoder of a dataset and a request agree: what is written is read as a set with a TLV of each
-- type that is asked for, and no other.
abbrev pub Asks : List ℕ → Result (List ℕ) → Type 0
Asks types written =
    (payload : List ℕ) × (written ≡ ok payload)
    × (set : TlvSet) × (get_tlv_set mesh_cop no_tlvs payload ≡ ok set)
    × ((type : ℕ) → is_some (set type) ≡ contains types type)

rows-Asks :
    (rows : List Row) (types : List ℕ) (written : Result (List ℕ))
    → All IsRow rows
    → types ≡ request_rows rows []
    → written ≡ append_rows [] rows
    → Asks types written
rows-Asks rows types written are e w =
    let (payload, appended, parsed) = get_tlv_set-append_rows rows are in
    (
      payload,
      w ∙ appended,
      insert_rows no_tlvs rows,
      parsed,
      λ type.
          request_rows-insert_rows rows no_tlvs [] type (unfold is_some no_tlvs contains in refl)
          ∙ ap (λ (ts : List ℕ). contains ts type) (sym e),
    )

-- For an active, a pending and a Commissioner dataset whose fields fit: a request with the flags of the
-- dataset asks for the type of each TLV that its encoder writes, and for no other.
pub requests-encode :
    (a : ActiveOperationalDataset) (p : PendingOperationalDataset) (c : CommissionerDataset)
    → IsActive a
    → IsPending p
    → IsCommissioner c
    → Asks (get_active_operational_dataset_tlvs a.present_flags) (encode_active [] a)
      × Asks (get_pending_operational_dataset_tlvs p.active.present_flags) (encode_pending [] p)
      × Asks (get_commissioner_dataset_tlvs c.present_flags) (encode_commissioner [] c)
unfolding get_active_operational_dataset_tlvs get_pending_operational_dataset_tlvs
    get_commissioner_dataset_tlvs request_present request_rows active_rows pending_rows more_rows
    delay_row timestamp_row commissioner_rows
requests-encode a p c ha hp hc = (
  rows-Asks (active_rows a) _ _ (rows-IsRow a ha) refl (encode_active-rows [] a (λ e. (ha.3 e).0)),
  rows-Asks (pending_rows p) _ _ (pending_rows-IsRow p hp) refl (encode_pending-rows [] p hp.0),
  rows-Asks (commissioner_rows c) _ _ (commissioner_rows-IsRow c hc) refl
      (encode_commissioner-rows [] c),
)
