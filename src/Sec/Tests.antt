-- ===== src/Sec/Tests.antt =====
-- A security domain with rotation on: the theorems at it.
use uet_ref_prov.Base.{◌^◌, ◌-◌, ℕ, ◌≡◌, refl, inl, true, arith, replicate}
use uet_ref_prov.Sec.Rotation.{Family, Sd, rot_now, which_key, sd_key, tx_an, packet_nonce}
use uet_ref_prov.Sec.Rotation.Cache.{fresh_key, IsCoherent, sd_key_lem}
use uet_ref_prov.Sec.Rotation.Skew.{skew_lem, rot_now-le}
use uet_ref_prov.Sec.Rotation.Nonce.{nonce_repeats}

-- The domain after its set-up, with the last rotation seen.
abbrev domain : ℕ → Sd
domain tx_rot = record {
  epoch = 0;
  an = 0;
  tx_counter = 7;
  invoke_fatal_threshold = 2 ^ 48 - 1;
  rotation_enabled = true;
  tx_rot = tx_rot;
  key = λ fam slot. replicate 44 slot;
  cache_rot = 0;
  eff_key = λ fam slot. replicate 44 0;
}

domain-IsCoherent : (tx_rot : ℕ) → IsCoherent (domain tx_rot)
domain-IsCoherent tx_rot = inl refl

sd_key_example :
    ((sd_key (domain 5) Family.v4 1 61500).0
      ≡ fresh_key (domain 5).key Family.v4 (rot_now 61500) (which_key 1 61500))
    × ((sd_key (domain 5) Family.v4 1 61500).1.key ≡ (domain 5).key)
    × IsCoherent (sd_key (domain 5) Family.v4 1 61500).1
sd_key_example =
    sd_key_lem (domain 5) Family.v4 1 61500 refl (domain-IsCoherent 5)
      (rot_now-le 61500 (omega arith))

skew_example :
    (sd_key (domain 3) Family.v6 (tx_an (domain 5) 59000) 60500).0
    ≡ (sd_key (domain 5) Family.v6 (tx_an (domain 5) 59000) 59000).0
skew_example =
    skew_lem (domain 5) (domain 3) Family.v6 59000 60500 refl refl refl (domain-IsCoherent 5)
      (domain-IsCoherent 3) (omega arith) (omega arith) (omega arith) (omega arith)

nonce_repeats_example :
    packet_nonce (domain 5) Family.v4 59999 1 0 ≡ packet_nonce (domain 4) Family.v4 50000 0 0
unfolding rot_now
nonce_repeats_example =
    nonce_repeats (domain 4) (domain 5) Family.v4 50000 59999 1 0 refl refl (domain-IsCoherent 4)
      (domain-IsCoherent 5) refl (omega arith) (omega arith) (omega arith) refl refl refl
      (omega arith) (omega arith) (omega arith)
