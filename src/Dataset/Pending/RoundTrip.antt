-- ===== src/Dataset/Pending/RoundTrip.antt =====
-- EncodePendingOperationalDataset and then DecodePendingOperationalDataset of
-- src/library/commissioner_impl.cpp.
use ot_commissioner.Common.{
  ℕ, ◌*◌, ◌/◌, ◌^◌, ◌<◌, ◌≡◌, refl, sym, ◌∙◌, ap, arith, Bool, true, false, List, [], ◌∷◌, ◌++◌,
  All, none, some, Result, ok, ◌>>=◌, >>=-eq, >>=-ext, set_flag, if◌then◌else◌,
}
use ot_commissioner.Bytes.{encode}
use ot_commissioner.Bytes.RoundTrip.{decode-encode_all}
use ot_commissioner.Tlv.Types
use ot_commissioner.Tlv.Length.{exactly, allows, find_rule, mesh_cop_rules}
use ot_commissioner.Tlv.{TlvSet, no_tlvs, empty_tlv}
use ot_commissioner.Dataset.Timestamps.{
  Timestamp, IsTimestamp, encode_timestamp, encode_timestamp_lt, decode_timestamp-encode_timestamp,
}
use ot_commissioner.Dataset.Rows.{
  Row, IsRow, All-append, append_rows, append_chain, append_chain-append_rows, append_rows-append,
  insert_rows, get_tlv_set-append_rows, row-is_valid, HoldsAll, found-eq,
}
use ot_commissioner.Dataset.{
  ActiveOperationalDataset, PendingOperationalDataset, append_present, when_present,
}
use ot_commissioner.Dataset.Flags.{copy_flag}
use ot_commissioner.Dataset.Active.Encode.{
  has, IsActive, overlay, active_rows, encode_active-rows, rows-IsRow,
}
use ot_commissioner.Dataset.Active.RoundTrip.{decode_fields-overlay}
use ot_commissioner.Dataset.Active.{decode_active}
use ot_commissioner.Dataset.Pending.{
  delay_timer_bit, pending_timestamp_bit, read_delay_timer, read_pending_timestamp,
  decode_pending_fields, decode_pending, encode_pending,
}

abbrev pub IsPending : PendingOperationalDataset → Type 0
IsPending d =
    IsActive d.active
    × (has d.active delay_timer_bit ≡ true → d.delay_timer < 2 ^ 32)
    × (has d.active pending_timestamp_bit ≡ true → IsTimestamp d.pending_timestamp)

-- The fields of `d` that are present; elsewhere those of `local` for the base class, and of `fresh`.
unfoldable pub overlay_pending :
    PendingOperationalDataset
    → ActiveOperationalDataset
    → PendingOperationalDataset
    → PendingOperationalDataset
overlay_pending fresh local d = record {
  active = record (overlay local d.active) { present_flags = d.active.present_flags / 16 * 16 };
  delay_timer = if has d.active delay_timer_bit then d.delay_timer else fresh.delay_timer;
  pending_timestamp =
      if has d.active pending_timestamp_bit then d.pending_timestamp else fresh.pending_timestamp;
}

unfoldable pub delay_row : PendingOperationalDataset → Row
delay_row d = (has d.active delay_timer_bit, Types.delay_timer, encode 4 [] d.delay_timer)

unfoldable pub timestamp_row : PendingOperationalDataset → Row
timestamp_row d = (
  has d.active pending_timestamp_bit,
  Types.pending_timestamp,
  encode 8 [] (encode_timestamp d.pending_timestamp),
)

unfoldable pub more_rows : PendingOperationalDataset → List Row
more_rows d = delay_row d ∷ timestamp_row d ∷ []

unfoldable pub pending_rows : PendingOperationalDataset → List Row
pending_rows d = active_rows d.active ++ more_rows d

pub encode_pending-rows :
    (payload : List ℕ) (d : PendingOperationalDataset)
    → IsActive d.active
    → encode_pending payload d ≡ append_rows payload (pending_rows d)
unfolding encode_pending pending_rows more_rows delay_row timestamp_row append_present append_chain
encode_pending-rows payload d h =
    ap (λ (m : Result (List ℕ)). m >>= λ p. append_chain p (delay_row d) (timestamp_row d ∷ []))
      (encode_active-rows payload d.active (λ e. (h.3 e).0))
    ∙ >>=-ext (append_rows payload (active_rows d.active)) _ _
        (λ p. append_chain-append_rows p (delay_row d) (timestamp_row d ∷ []))
    ∙ sym (append_rows-append payload (active_rows d.active) (more_rows d))

pub pending_rows-IsRow : (d : PendingOperationalDataset) → IsPending d → All IsRow (pending_rows d)
unfolding pending_rows more_rows delay_row timestamp_row find_rule mesh_cop_rules allows
pending_rows-IsRow d h = All-append IsRow (active_rows d.active) _ (rows-IsRow d.active h.0) (
  (λ e. (
    row-is_valid Types.delay_timer (exactly 4) _ (unfold encode in omega arith) refl
        (unfold encode in refl),
    λ e. absurd (omega arith),
  )),
  (
    (λ e. (
      row-is_valid Types.pending_timestamp (exactly 8) _ (unfold encode in omega arith) refl
          (unfold encode in refl),
      λ e. absurd (omega arith),
    )),
    tt,
  ),
)

delay_timer_step :
    (present : Bool) (v : ℕ) (d : PendingOperationalDataset)
    → (present ≡ true → v < 2 ^ 32)
    → when_present
        (if present then some (empty_tlv Types.delay_timer (encode 4 [] v)) else none)
        read_delay_timer
        d
      ≡ ok (record d {
        active = record d.active {
          present_flags =
              if present
              then set_flag d.active.present_flags delay_timer_bit
              else d.active.present_flags;
        };
        delay_timer = if present then v else d.delay_timer;
      })
unfolding when_present read_delay_timer
delay_timer_step true v d h = rw (decode-encode_all 4 v (h refl)) refl
delay_timer_step false v d h = refl

pending_timestamp_step :
    (present : Bool) (v : Timestamp) (d : PendingOperationalDataset)
    → (present ≡ true → IsTimestamp v)
    → when_present
        (if present
          then some (empty_tlv Types.pending_timestamp (encode 8 [] (encode_timestamp v)))
          else none)
        read_pending_timestamp
        d
      ≡ ok (record d {
        active = record d.active {
          present_flags =
              if present
              then set_flag d.active.present_flags pending_timestamp_bit
              else d.active.present_flags;
        };
        pending_timestamp = if present then v else d.pending_timestamp;
      })
unfolding when_present read_pending_timestamp
pending_timestamp_step true v d h =
    rw
      (
        decode-encode_all 8 (encode_timestamp v) (encode_timestamp_lt v (h refl)),
        decode_timestamp-encode_timestamp v (h refl),
      )
      refl
pending_timestamp_step false v d h = refl

kept_pending_flags :
    (flags : ℕ)
    → flags < 2 ^ 16
    → copy_flag flags 16 (copy_flag flags 32 (flags / 64 * 64)) ≡ flags / 16 * 16
unfolding copy_flag
kept_pending_flags flags h =
    let first : copy_flag flags 32 (flags / 64 * 64) ≡ flags / 32 * 32 = ground arith in
    let second : copy_flag flags 16 (flags / 32 * 32) ≡ flags / 16 * 16 = ground arith in
    ap (copy_flag flags 16) first ∙ second

pending_fields-overlay :
    (set : TlvSet) (fresh : PendingOperationalDataset) (local : ActiveOperationalDataset)
    (d : PendingOperationalDataset)
    → IsPending d
    → HoldsAll set (more_rows d)
    → decode_pending_fields set (record fresh { active = overlay local d.active })
      ≡ ok (overlay_pending fresh local d)
unfolding decode_pending_fields more_rows delay_row timestamp_row overlay overlay_pending copy_flag
pending_fields-overlay set fresh local d (active, delay, timestamp) (s1, (s2, end)) =
    >>=-eq _
      (found-eq set Types.delay_timer read_delay_timer _ s1
        (delay_timer_step (has d.active delay_timer_bit) d.delay_timer _ delay))
      (found-eq set Types.pending_timestamp read_pending_timestamp _ s2 (
          pending_timestamp_step (has d.active pending_timestamp_bit) d.pending_timestamp _
            timestamp)
        ∙ ap
            (λ (f : ℕ). ok (record (overlay_pending fresh local d) {
              active = record (overlay local d.active) { present_flags = f };
            }))
            (kept_pending_flags d.active.present_flags active.0))

-- A pending dataset whose fields fit is encoded, and what is written decodes to its fields, those of
-- the active dataset that it contains among them; no other field is changed and no other flag is set.
pub decode_pending-encode_pending :
    (fresh : PendingOperationalDataset) (local : ActiveOperationalDataset)
    (d : PendingOperationalDataset)
    → IsPending d
    → (payload : List ℕ) × (encode_pending [] d ≡ ok payload)
      × (decode_pending fresh local payload ≡ ok (overlay_pending fresh local d))
unfolding decode_pending decode_active
decode_pending-encode_pending fresh local d h =
    let (payload, written, parsed) =
      get_tlv_set-append_rows (pending_rows d) (pending_rows-IsRow d h) in
    (
      payload,
      encode_pending-rows [] d h.0 ∙ written,
      >>=-eq _
          (>>=-eq _ parsed (
            decode_fields-overlay (insert_rows no_tlvs (pending_rows d)) _ local d.active h.0 (
              unfold active_rows pending_rows more_rows delay_row timestamp_row insert_rows
                no_tlvs in
              (refl, (refl, (refl, (refl, (refl, (refl, (refl, (refl, (refl, (refl, tt)))))))))))))
          (>>=-eq _ parsed (
            pending_fields-overlay (insert_rows no_tlvs (pending_rows d)) fresh local d h (
              unfold active_rows pending_rows more_rows delay_row timestamp_row insert_rows
                no_tlvs in
              (refl, (refl, tt))))),
    )
