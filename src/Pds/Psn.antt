-- ===== src/Pds/Psn.antt =====
-- uet_pds.c: packet sequence numbers, which are `uint32_t` and wrap, and the maximum PSN range.
pub mod Laws
use uet_ref_prov.Base.{
  ℕ, ◌+◌, ◌-◌, ◌*◌, ◌%◌, ◌^◌, Bool, true, false, ℤ, pos, negsuc, signed32, ltb, if◌then◌else◌,
  bit_and, bit_xor,
}

abbrev pub mp_range : ℕ
mp_range = 128

abbrev pub mpr_granularity : ℕ
mpr_granularity = 128

-- `a + b` and `a - b` on `uint32_t`
abbrev pub add32 : ℕ → ℕ → ℕ
add32 a b = (a + b) % 2 ^ 32

abbrev pub sub32 : ℕ → ℕ → ℕ
sub32 a b = (a + 2 ^ 32 - b) % 2 ^ 32

-- UET_PDS_PSN_OFFSET
abbrev pub psn_offset : ℕ → ℕ → ℤ
psn_offset a b = signed32 (sub32 a b)

-- `d > 0` and `d >= 0`
abbrev pub is_positive : ℤ → Bool
is_positive (pos n) = ltb 0 n
is_positive (negsuc n) = false

abbrev pub is_natural : ℤ → Bool
is_natural (pos n) = true
is_natural (negsuc n) = false

-- UET_PDS_PSN_AFTER and UET_PDS_PSN_AFTER_EQ
unfoldable pub psn_after : ℕ → ℕ → Bool
psn_after a b = is_positive (psn_offset a b)

unfoldable pub psn_after_eq : ℕ → ℕ → Bool
psn_after_eq a b = is_natural (psn_offset a b)

-- UET_PDS_UPDATE_PSN, as the new value of `old`
unfoldable pub update_psn : ℕ → ℕ → ℕ
update_psn old new = if is_positive (signed32 (sub32 new old)) then new else old

-- PSN_IN_MPR and PSN_IN_PRIOR_MPR
unfoldable pub psn_in_mpr : ℕ → ℕ → Bool
psn_in_mpr psn base_psn = ltb (sub32 psn base_psn) mp_range

unfoldable pub psn_in_prior_mpr : ℕ → ℕ → Bool
unfolding psn_in_mpr
psn_in_prior_mpr psn base_psn = psn_in_mpr psn (sub32 base_psn mp_range)

-- uet_pds_decode_mpr, for a `uint8_t`
unfoldable pub decode_mpr : ℕ → ℕ
decode_mpr mpr = mpr * mpr_granularity % 2 ^ 32

-- uet_pds_rand_start_psn, from the two values that `rand()` returns
pub rand_start_psn : ℕ → ℕ → ℕ
rand_start_psn first second =
    let psn = bit_and (bit_xor (first * 2 ^ 16 % 2 ^ 32) second) 0x7fffffff in
    if ltb psn 0x10000 then (psn + 0x10000) % 2 ^ 32 else psn
