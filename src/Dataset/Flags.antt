-- ===== src/Dataset/Flags.antt =====
-- The flags of include/commissioner/network_data.hpp that the decoders set one by one, from the
-- highest to the lowest.
use ot_commissioner.Common.{
  ℕ, ◌*◌, ◌/◌, ◌%◌, ◌^◌, ◌<◌, ◌≡◌, ap, ◌∙◌, arith, has_flag, set_flag, if◌then◌else◌,
}

unfoldable pub copy_flag : ℕ → ℕ → ℕ → ℕ
copy_flag flags mask to = if has_flag flags mask then set_flag to mask else to

copy_32768 : (flags : ℕ) → flags < 2 ^ 16 → copy_flag flags 32768 (0) ≡ flags / 32768 * 32768
unfolding copy_flag
copy_32768 flags h = ground arith

copy_16384 :
    (flags : ℕ)
    → flags < 2 ^ 16
    → copy_flag flags 16384 (flags / 32768 * 32768) ≡ flags / 16384 * 16384
unfolding copy_flag
copy_16384 flags h = ground arith

pub copy_8192 :
    (flags : ℕ)
    → flags < 2 ^ 16
    → copy_flag flags 8192 (flags / 16384 * 16384) ≡ flags / 8192 * 8192
unfolding copy_flag
copy_8192 flags h = ground arith

pub copy_4096 :
    (flags : ℕ) → flags < 2 ^ 16 → copy_flag flags 4096 (flags / 8192 * 8192) ≡ flags / 4096 * 4096
unfolding copy_flag
copy_4096 flags h = ground arith

pub copy_2048 :
    (flags : ℕ) → flags < 2 ^ 16 → copy_flag flags 2048 (flags / 4096 * 4096) ≡ flags / 2048 * 2048
unfolding copy_flag
copy_2048 flags h = ground arith

pub copy_1024 :
    (flags : ℕ) → flags < 2 ^ 16 → copy_flag flags 1024 (flags / 2048 * 2048) ≡ flags / 1024 * 1024
unfolding copy_flag
copy_1024 flags h = ground arith

pub copy_512 :
    (flags : ℕ) → flags < 2 ^ 16 → copy_flag flags 512 (flags / 1024 * 1024) ≡ flags / 512 * 512
unfolding copy_flag
copy_512 flags h = ground arith

pub copy_256 :
    (flags : ℕ) → flags < 2 ^ 16 → copy_flag flags 256 (flags / 512 * 512) ≡ flags / 256 * 256
unfolding copy_flag
copy_256 flags h = ground arith

copy_128 :
    (flags : ℕ) → flags < 2 ^ 16 → copy_flag flags 128 (flags / 256 * 256) ≡ flags / 128 * 128
unfolding copy_flag
copy_128 flags h = ground arith

copy_64 : (flags : ℕ) → flags < 2 ^ 16 → copy_flag flags 64 (flags / 128 * 128) ≡ flags / 64 * 64
unfolding copy_flag
copy_64 flags h = ground arith

pub kept_flags :
    (flags : ℕ)
    → flags < 2 ^ 16
    → copy_flag flags 64 (
        copy_flag flags 128 (
          copy_flag flags 256 (
            copy_flag flags 512 (
              copy_flag flags 1024 (
                copy_flag flags 2048 (
                  copy_flag flags 4096
                    (copy_flag flags 8192 (copy_flag flags 16384 (copy_flag flags 32768 (0))))))))))
      ≡ flags / 64 * 64
kept_flags flags h =
    ap (copy_flag flags 64) (
      ap (copy_flag flags 128) (
        ap (copy_flag flags 256) (
          ap (copy_flag flags 512) (
            ap (copy_flag flags 1024) (
              ap (copy_flag flags 2048) (
                ap (copy_flag flags 4096) (
                  ap (copy_flag flags 8192)
                    (ap (copy_flag flags 16384) (copy_32768 flags h) ∙ copy_16384 flags h)
                  ∙ copy_8192 flags h)
                ∙ copy_4096 flags h)
              ∙ copy_2048 flags h)
            ∙ copy_1024 flags h)
          ∙ copy_512 flags h)
        ∙ copy_256 flags h)
      ∙ copy_128 flags h)
    ∙ copy_64 flags h

-- The decoder of the Commissioner Dataset takes the second flag first.
pub copy_second : (flags : ℕ) → copy_flag flags 16384 0 ≡ flags / 16384 % 2 * 16384
unfolding copy_flag
copy_second flags = ground arith

pub copy_first :
    (flags : ℕ)
    → flags < 2 ^ 16
    → copy_flag flags 32768 (flags / 16384 % 2 * 16384) ≡ flags / 16384 * 16384
unfolding copy_flag
copy_first flags h = ground arith
