-- ===== src/Coap/Message/RoundTrip.antt =====
-- `Message::Serialize` and `Message::Deserialize` of src/library/coap.cpp, one after the other.
use mathlib.Core.List.{append_assoc, append-nil}
use ot_commissioner.Common.{
  ℕ, suc, ◌≡◌, refl, sym, ap, ◌∙◌, arith, false, List, [], ◌∷◌, ◌++◌, length, All, ◌==◌, inl, inr,
  Bool-cases, ok, subst,
}
use ot_commissioner.Coap.Header.{
  IsHeader, header_bytes, serialize_header_lem, deserialize_header_bytes,
}
use ot_commissioner.Coap.OptionType
use ot_commissioner.Coap.UriPath.{split_uri_path}
use ot_commissioner.Coap.UriPath.Split.{join, split_uri_path-join}
use ot_commissioner.Coap.Message.{
  OptionMap, Message, serialize, deserialize, put_payload, read_payload, payload_marker,
}
use ot_commissioner.Coap.Message.Wire.{
  tagged, pieces, option_list, put_all, accept_all, AreWritable, IsTail, serialize_options-put_all,
  options_loop-put_all,
}
use ot_commissioner.Coap.Message.Map.{
  AreBelow, AreBelow-mono, AreBelow-snoc, IsCanonical, IsPath, IsKept, accept_valid, accept_segment,
  accept_segments, extend_option-snoc, segments-plain,
}

accept_join :
    (s : List ℕ) (segments : List (List ℕ)) (last : ℕ) (options rest : OptionMap)
    → All IsKept (s ∷ segments)
    → AreBelow OptionType.uri_path options
    → AreWritable last (tagged (s ∷ segments) ++ rest)
    → accept_all (tagged (s ∷ segments) ++ rest) options
      ≡ accept_all rest (options ++ ((OptionType.uri_path, join (s ∷ segments)) ∷ []))
unfolding accept_all tagged join
accept_join s segments last options rest (kept, k) b (one, w) =
    rw
      (
        accept_segment s options one.2 kept.0,
        extend_option-snoc OptionType.uri_path (b'/' ∷ s) options b,
      )
      (accept_segments segments (b'/' ∷ s) OptionType.uri_path options rest b w k)

accept_path :
    (value : List ℕ) (last : ℕ) (options rest : OptionMap)
    → IsPath value
    → AreBelow OptionType.uri_path options
    → AreWritable last (tagged (split_uri_path value) ++ rest)
    → accept_all (tagged (split_uri_path value) ++ rest) options
      ≡ accept_all rest (options ++ ((OptionType.uri_path, value) ∷ []))
accept_path value last options rest (s, segments, e, kept, k) b w =
    let all = segments-plain (s ∷ segments) (kept, k) in
    let cut : split_uri_path value ≡ s ∷ segments =
      ap split_uri_path e ∙ split_uri_path-join s segments all.0 all.1 in
    ap (λ (t : List (List ℕ)). accept_all (tagged t ++ rest) options) cut
    ∙ accept_join s segments last options rest (kept, k) b
        (subst (λ (t : List (List ℕ)). AreWritable last (tagged t ++ rest)) cut w)
    ∙ ap (λ (p : List ℕ). accept_all rest (options ++ ((OptionType.uri_path, p) ∷ []))) (sym e)

accept_plain :
    (number : ℕ) (value : List ℕ) (last : ℕ) (options rest : OptionMap)
    → (number == OptionType.uri_path) ≡ false
    → AreBelow number options
    → AreWritable last ((number, value) ∷ rest)
    → accept_all ((number, value) ∷ rest) options
      ≡ accept_all rest (options ++ ((number, value) ∷ []))
unfolding accept_all
accept_plain number value last options rest plain b (one, h) =
    rw (accept_valid number value options one.2 plain b)

accept_pieces :
    (number : ℕ) (value : List ℕ) (last : ℕ) (options rest : OptionMap)
    → (number ≡ OptionType.uri_path → IsPath value)
    → AreBelow number options
    → AreWritable last (pieces number value ++ rest)
    → accept_all (pieces number value ++ rest) options
      ≡ accept_all rest (options ++ ((number, value) ∷ []))
unfolding pieces
accept_pieces number value last options rest path b w =
    elim (Bool-cases (number == OptionType.uri_path)) [
      | inl uri ↦
          let n : number ≡ OptionType.uri_path = ground arith in
          rw uri (
            accept_path value last options rest (path n) (rw n at b) (rw uri at w)
            ∙ ap (λ (k : ℕ). accept_all rest (options ++ ((k, value) ∷ []))) (sym n))
      | inr plain ↦ rw plain (accept_plain number value last options rest plain b (rw plain at w))
    ]

AreWritable-drop :
    (before : OptionMap) (last : ℕ) (rest : OptionMap)
    → AreWritable last (before ++ rest)
    → (last' : ℕ) × AreWritable last' rest
AreWritable-drop [] last rest w = (last, w)
AreWritable-drop ((number, value) ∷ before) last rest (one, w) =
    AreWritable-drop before number rest w

accept_all-option_list :
    (more : OptionMap) (bound last : ℕ) (options : OptionMap)
    → IsCanonical bound more
    → AreBelow bound options
    → AreWritable last (option_list more)
    → accept_all (option_list more) options ≡ ok (options ++ more)
unfolding option_list
accept_all-option_list [] bound last options c b w =
    unfold accept_all in ap ok (sym (append-nil options))
accept_all-option_list ((number, value) ∷ more) bound last options (low, path, c) b w =
    let (last', w') = AreWritable-drop (pieces number value) last (option_list more) w in
    accept_pieces number value last options (option_list more) path (AreBelow-mono options low b) w
    ∙ accept_all-option_list more (suc number) last' (options ++ ((number, value) ∷ [])) c
        (AreBelow-snoc number value options (AreBelow-mono options low b)) w'
    ∙ ap ok (append_assoc options ((number, value) ∷ []) more)

marked : List ℕ → List ℕ
marked [] = []
marked (b ∷ payload) = payload_marker ∷ b ∷ payload

marked-IsTail : (payload : List ℕ) → IsTail (marked payload)
unfolding marked
marked-IsTail [] = tt
marked-IsTail (b ∷ payload) = refl

put_payload-marked : (payload buf : List ℕ) → put_payload payload buf ≡ buf ++ marked payload
unfolding put_payload marked
put_payload-marked [] buf = sym (append-nil buf)
put_payload-marked (b ∷ payload) buf = refl

read_payload-marked : (payload : List ℕ) → read_payload (marked payload) ≡ ok payload
unfolding read_payload marked
read_payload-marked [] = refl
read_payload-marked (b ∷ payload) = refl

-- What makes a message one that the codecs agree on.
pub record IsWireable (m : Message) : Type 0 where
  pub header_ok : IsHeader m.header
  pub writable : AreWritable 0 (option_list m.options)
  pub canonical : IsCanonical 0 m.options

message_bytes : Message → List ℕ
message_bytes m = header_bytes m.header ++ (put_all 0 (option_list m.options) ++ marked m.payload)

serialize-message_bytes : (m : Message) → IsWireable m → serialize m [] ≡ ok (message_bytes m)
unfolding serialize message_bytes
serialize-message_bytes m w = rw (serialize_header_lem m.header [] w.header_ok) (
    rw (serialize_options-put_all m.options 0 (header_bytes m.header) w.writable)
      (ap ok (put_payload-marked m.payload _ ∙ append_assoc (header_bytes m.header) _ _)))

deserialize-message_bytes : (m : Message) → IsWireable m → deserialize (message_bytes m) ≡ ok m
unfolding deserialize message_bytes
deserialize-message_bytes m w =
    let body = put_all 0 (option_list m.options) ++ marked m.payload in
    let options =
      options_loop-put_all (option_list m.options) (length body) 0 [] m.options (marked m.payload)
        w.writable (marked-IsTail m.payload)
        (accept_all-option_list m.options 0 0 [] w.canonical tt w.writable) (omega arith) in
    rw (deserialize_header_bytes m.header body w.header_ok)
      (rw w.header_ok.valid (rw options (rw (read_payload-marked m.payload))))

-- A message is serialized and read back as it was, if its header is one that the setters build, its
-- options are in order and written without an abort, and its path, if it has one, is "/s1/s2/.." with
-- no empty segment and no slash, percent sign or space in one.
pub deserialize-serialize_message :
    (m : Message)
    → IsWireable m
    → (bytes : List ℕ) × (serialize m [] ≡ ok bytes) × (deserialize bytes ≡ ok m)
deserialize-serialize_message m w =
    (message_bytes m, serialize-message_bytes m w, deserialize-message_bytes m w)
