-- ===== src/Steering/Tests.antt =====
-- Runs of src/library/openthread/crc16.cpp, and the theorem at a concrete input.
use ot_commissioner.Common.{ℕ, ◌≡◌, refl, arith, List, [], ◌∷◌, ok}
use ot_commissioner.Steering.{
  ccitt, ansi, crc16, updates, update, crc_rounds, crc_round, add_joiner,
}
use ot_commissioner.Steering.Bits.{has_bit, byte_at}
use ot_commissioner.Steering.Joiners.{Admits, IsSteering, add_joiner-Admits}

-- The check values of the two polynomials with initial value 0, for the text "123456789".
abbrev digits : List ℕ
digits = b'1' ∷ b'2' ∷ b'3' ∷ b'4' ∷ b'5' ∷ b'6' ∷ b'7' ∷ b'8' ∷ b'9' ∷ []

crc_check_ccitt : crc16 ccitt digits ≡ 0x31c3
unfolding crc16 updates update crc_rounds crc_round
crc_check_ccitt = refl

crc_check_ansi : crc16 ansi digits ≡ 0xfee8
unfolding crc16 updates update crc_rounds crc_round
crc_check_ansi = refl

-- Everyone is admitted.
abbrev everyone : List ℕ
everyone =
    0xff ∷ 0xff ∷ 0xff ∷ 0xff ∷ 0xff ∷ 0xff ∷ 0xff ∷ 0xff ∷ 0xff ∷ 0xff ∷ 0xff ∷ 0xff ∷ 0xff ∷ 0xff
    ∷ 0xff ∷ 0xff ∷ []

everyone-Admits : Admits everyone (7 ∷ [])
unfolding crc16 updates update crc_rounds crc_round has_bit byte_at
everyone-Admits = (refl, refl)

everyone-IsSteering : IsSteering everyone
everyone-IsSteering = (
  (
    omega arith,
    (
      omega arith,
      (
        omega arith,
        (
          omega arith,
          (
            omega arith,
            (
              omega arith,
              (
                omega arith,
                (
                  omega arith,
                  (
                    omega arith,
                    (
                      omega arith,
                      (
                        omega arith,
                        (
                          omega arith,
                          (omega arith, (omega arith, (omega arith, (omega arith, tt)))),
                        ),
                      ),
                    ),
                  ),
                ),
              ),
            ),
          ),
        ),
      ),
    ),
  ),
  refl,
)

add_joiner-Admits_example :
    (next : List ℕ) × (add_joiner everyone digits ≡ ok next)
    × IsSteering next
    × Admits next digits
    × Admits next (7 ∷ [])
add_joiner-Admits_example =
    add_joiner-Admits everyone digits (7 ∷ []) everyone-IsSteering everyone-Admits
