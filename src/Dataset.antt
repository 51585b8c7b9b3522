-- ===== src/Dataset.antt =====
-- The datasets of include/commissioner/network_data.hpp, and how src/library/commissioner_impl.cpp
-- writes them to the payload of a message and reads them back.
pub mod Timestamps
pub mod Masks
pub mod Rows
pub mod Flags
pub mod Reading
pub mod Active
pub mod Pending
pub mod Commissioner
pub mod Requests
mod Tests
use ot_commissioner.Common.{
  ℕ, zero, suc, List, [], ◌∷◌, Option, none, some, ErrorCode, Result, ok, err, died, has_flag,
  if◌then◌else◌,
}
use ot_commissioner.Tlv.{Tlv, empty_tlv}
use ot_commissioner.Tlv.Message.{append_tlv}
use Timestamps.{Timestamp}
use Masks.{ChannelMask}

pub record Channel : Type 0 where
  pub page : ℕ
  pub number : ℕ

pub record SecurityPolicy : Type 0 where
  pub rotation_time : ℕ
  pub flags : List ℕ

pub record ActiveOperationalDataset : Type 0 where
  pub active_timestamp : Timestamp
  pub channel : Channel
  pub channel_mask : ChannelMask
  pub extended_pan_id : List ℕ
  pub mesh_local_prefix : List ℕ
  pub network_master_key : List ℕ
  pub network_name : List ℕ
  pub pan_id : ℕ
  pub pskc : List ℕ
  pub security_policy : SecurityPolicy
  pub present_flags : ℕ

-- The base class is the first field; its flags hold those of the derived class too.
pub record PendingOperationalDataset : Type 0 where
  pub active : ActiveOperationalDataset
  pub delay_timer : ℕ
  pub pending_timestamp : Timestamp

-- `if (aDataset.mPresentFlags & bit) { AppendTlv(aRequest, {type, value}) }`, on the payload.
unfoldable pub append_present : ℕ → ℕ → ℕ → List ℕ → List ℕ → Result (List ℕ)
append_present flags mask type value payload =
    if has_flag flags mask then append_tlv payload (empty_tlv type value) else ok payload

-- `if (auto tlv = tlvSet[type]) { .. }`, where the block changes the dataset.
unfoldable pub when_present {ℓ} : {D : Type ℓ} → Option Tlv → (List ℕ → D → Result D) → D → Result D
when_present none read dataset = ok dataset
when_present (some tlv) read dataset = read tlv.value dataset

pub record BbrDataset : Type 0 where
  pub tri_hostname : List ℕ
  pub registrar_hostname : List ℕ
  pub registrar_ipv6_addr : List ℕ
  pub present_flags : ℕ
