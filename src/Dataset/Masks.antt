-- ===== src/Dataset/Masks.antt =====
-- The channel mask of include/commissioner/network_data.hpp, with EncodeChannelMask and
-- DecodeChannelMask of src/library/commissioner_impl.cpp.
use mathlib.Core.List.{append_assoc, append-nil}
use ot_commissioner.Common.{
  ℕ, zero, suc, ◌%◌, ◌^◌, ◌<◌, ◌≤◌, ◌≡◌, sym, ◌∙◌, arith, ap, List, [], ◌∷◌, ◌++◌, length, take,
  drop, length-append, length-drop, take-append, drop-append, leb, ltb, lt→ltb, le→leb, Result, ok,
  err, died, ◌>>◌, verify, bad_format, invalid_args, All, Returns, returned, failed, guard-Returns,
}
use ot_commissioner.Bytes.{encode}
use ot_commissioner.Tlv.Length.{escape_length}

pub record ChannelMaskEntry : Type 0 where
  pub page : ℕ
  pub masks : List ℕ

abbrev pub ChannelMask : Type 0
ChannelMask = List ChannelMaskEntry

unfoldable pub encode_channel_mask : List ℕ → ChannelMask → Result (List ℕ)
encode_channel_mask buf [] = ok buf
encode_channel_mask buf (entry ∷ entries) = do
  verify (ltb (length entry.masks) escape_length) invalid_args
  encode_channel_mask
      (encode 1 (encode 1 buf entry.page) (length entry.masks % 2 ^ 8) ++ entry.masks) entries

-- The loop of `DecodeChannelMask`, on fuel; `mask` is what it has collected. Where the fuel runs out,
-- `died`.
unfoldable pub decode_channel_mask_loop : ℕ → ChannelMask → List ℕ → Result ChannelMask
decode_channel_mask_loop fuel mask [] = ok mask
decode_channel_mask_loop zero mask (b ∷ bytes) = died
decode_channel_mask_loop (suc fuel) mask (page ∷ []) = err bad_format
decode_channel_mask_loop (suc fuel) mask (page ∷ entry_length ∷ rest) = do
  verify (leb entry_length (length rest)) bad_format
  decode_channel_mask_loop fuel
      (mask ++ (record { page = page; masks = take entry_length rest } ∷ []))
      (drop entry_length rest)

-- Each round takes two bytes at least.
unfoldable pub decode_channel_mask : List ℕ → Result ChannelMask
decode_channel_mask buf = decode_channel_mask_loop (length buf) [] buf

abbrev pub IsEntry : ChannelMaskEntry → Type 0
IsEntry entry = (entry.page < 256) × (length entry.masks < 255)

-- The bytes of a channel mask.
unfoldable pub mask_bytes : ChannelMask → List ℕ
mask_bytes [] = []
mask_bytes (entry ∷ entries) = entry.page ∷ length entry.masks ∷ (entry.masks ++ mask_bytes entries)

pub encode_channel_mask_lem :
    (buf : List ℕ) (mask : ChannelMask)
    → All IsEntry mask
    → encode_channel_mask buf mask ≡ ok (buf ++ mask_bytes mask)
unfolding encode_channel_mask mask_bytes encode
encode_channel_mask_lem buf [] h = ap ok (sym (append-nil buf))
encode_channel_mask_lem buf (entry ∷ entries) ((hp, hl), h) =
    let p : entry.page % 256 ≡ entry.page = omega arith in
    let l : length entry.masks % 2 ^ 8 % 256 ≡ length entry.masks = omega arith in
    rw (lt→ltb (length entry.masks) 255 hl, p, l)
      (encode_channel_mask_lem
          (((buf ++ (entry.page ∷ [])) ++ (length entry.masks ∷ [])) ++ entry.masks) entries h
        ∙ ap ok (simp append_assoc))

decode_channel_mask_loop_lem :
    (fuel : ℕ) (before mask : ChannelMask)
    → length (mask_bytes mask) ≤ fuel
    → decode_channel_mask_loop fuel before (mask_bytes mask) ≡ ok (before ++ mask)
unfolding decode_channel_mask_loop mask_bytes
decode_channel_mask_loop_lem fuel before [] h = ap ok (sym (append-nil before))
decode_channel_mask_loop_lem zero before (entry ∷ entries) h = absurd (omega arith)
decode_channel_mask_loop_lem (suc fuel) before (entry ∷ entries) h =
    rw
      (
        le→leb (length entry.masks) (length (entry.masks ++ mask_bytes entries))
            (omega (arith, length-append entry.masks (mask_bytes entries))),
        take-append entry.masks (mask_bytes entries),
        drop-append entry.masks (mask_bytes entries),
      )
      (decode_channel_mask_loop_lem fuel (before ++ (entry ∷ [])) entries
          (omega (arith, length-append entry.masks (mask_bytes entries)))
        ∙ ap ok (append_assoc before (entry ∷ []) entries))

pub decode_channel_mask-mask_bytes :
    (mask : ChannelMask) → decode_channel_mask (mask_bytes mask) ≡ ok mask
unfolding decode_channel_mask
decode_channel_mask-mask_bytes mask =
    decode_channel_mask_loop_lem (length (mask_bytes mask)) [] mask (omega arith)

-- A channel mask whose pages are bytes and whose lists of masks are shorter than 255 bytes is encoded
-- behind what the buffer holds, and what is written there decodes to it.
pub decode_channel_mask-encode_channel_mask :
    (buf : List ℕ) (mask : ChannelMask)
    → All IsEntry mask
    → (bytes : List ℕ) × (encode_channel_mask buf mask ≡ ok (buf ++ bytes))
      × (decode_channel_mask bytes ≡ ok mask)
decode_channel_mask-encode_channel_mask buf mask h =
    (mask_bytes mask, encode_channel_mask_lem buf mask h, decode_channel_mask-mask_bytes mask)

decode_channel_mask_loop-Returns :
    (fuel : ℕ) (mask : ChannelMask) (bytes : List ℕ)
    → length bytes ≤ fuel
    → Returns (decode_channel_mask_loop fuel mask bytes)
unfolding decode_channel_mask_loop
decode_channel_mask_loop-Returns fuel mask [] h = returned mask
decode_channel_mask_loop-Returns zero mask (b ∷ bytes) h = absurd (omega arith)
decode_channel_mask_loop-Returns (suc fuel) mask (page ∷ []) h = failed bad_format
decode_channel_mask_loop-Returns (suc fuel) mask (page ∷ n ∷ rest) h =
    guard-Returns (leb n (length rest)) bad_format _
      (decode_channel_mask_loop-Returns fuel _ (drop n rest) (omega (arith, length-drop n rest)))

pub decode_channel_mask-Returns : (buf : List ℕ) → Returns (decode_channel_mask buf)
unfolding decode_channel_mask
decode_channel_mask-Returns buf = decode_channel_mask_loop-Returns (length buf) [] buf (omega arith)
