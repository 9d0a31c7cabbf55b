-- ===== src/Pds/Psn/Laws.antt =====
-- The order of packet sequence numbers and the windows that the PSN macros describe.
use uet_ref_prov.Base.{
  ℕ, ◌-◌, ◌*◌, ◌%◌, ◌^◌, ◌≤◌, ◌<◌, ◌≡◌, ltb, leb, if◌then◌else◌, arith, bit_and-le_right, bit_xor,
}
use uet_ref_prov.Pds.Psn.{
  add32, psn_after, psn_after_eq, update_psn, psn_in_mpr, psn_in_prior_mpr, rand_start_psn,
}

-- Two PSNs that lie less than 2^31 past a common base compare as their distances from it do,
-- whether or not the counter wraps between them.
pub psn_after_lem :
    (base i j : ℕ)
    → base < 2 ^ 32
    → i < 2 ^ 31
    → j < 2 ^ 31
    → (psn_after (add32 base i) (add32 base j) ≡ ltb j i)
      × (psn_after_eq (add32 base i) (add32 base j) ≡ leb j i)
unfolding psn_after psn_after_eq
psn_after_lem base i j hb hi hj = ground arith

-- `UET_PDS_UPDATE_PSN` keeps the later of two PSNs that lie less than 2^31 past a common base.
pub update_psn_lem :
    (base i j : ℕ)
    → base < 2 ^ 32
    → i < 2 ^ 31
    → j < 2 ^ 31
    → update_psn (add32 base i) (add32 base j) ≡ add32 base (if ltb i j then j else i)
unfolding update_psn
update_psn_lem base i j hb hi hj = ground arith

-- `PSN_IN_MPR` holds for the 128 PSNs from the base on, `PSN_IN_PRIOR_MPR` for the 128 before it.
pub psn_in_mpr_lem :
    (base i : ℕ)
    → base < 2 ^ 32
    → i < 2 ^ 32
    → (psn_in_mpr (add32 base i) base ≡ ltb i 128)
      × (psn_in_prior_mpr (add32 base i) base ≡ leb (2 ^ 32 - 128) i)
unfolding psn_in_mpr psn_in_prior_mpr
psn_in_mpr_lem base i hb hi = ground arith

-- A start PSN lies in [2^16, 2^31), whatever `rand()` returns, so that 2^31 further PSNs do not
-- wrap.
pub rand_start_psn_bounds :
    (first second : ℕ)
    → (2 ^ 16 ≤ rand_start_psn first second) × (rand_start_psn first second < 2 ^ 31)
unfolding rand_start_psn
rand_start_psn_bounds first second =
    ground (arith, bit_and-le_right 31 (bit_xor (first * 2 ^ 16 % 2 ^ 32) second) 0x7fffffff)
