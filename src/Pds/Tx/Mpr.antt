-- ===== src/Pds/Tx/Mpr.antt =====
-- The peer's maximum PSN range: which packets it admits, and acknowledgements out of order.
use native.Mathlib.Decide.{dec_lt}
use uet_ref_prov.Base.{
  leb-true, leb-false, Bool-cases, inl, inr, ℕ, ◌+◌, ◌^◌, ◌<◌, ◌≡◌, ◌≢◌, refl, true, false, not,
  ◌&&◌, ◌||◌, ◌==◌, ltb, leb, if◌then◌else◌, arith,
}
use uet_ref_prov.Pds.Psn.{add32, psn_in_mpr, decode_mpr}
use uet_ref_prov.Pds.Psn.Laws.{psn_after_lem}
use uet_ref_prov.Pds.State.{Pdc}
use uet_ref_prov.Pds.Tx.{tx_psn_allowed, process_mpr}

-- A PSN `d` past the cumulative acknowledgement, itself `c` before the base of the window, may be
-- sent exactly where it lies in the window and, if the peer gave a range, not further than that
-- range past the acknowledgement.
pub tx_psn_allowed_lem :
    (pdc : Pdc) (c d : ℕ)
    → pdc.max_cack_psn < 2 ^ 32
    → pdc.peer_mp_range < 2 ^ 31
    → c < 2 ^ 31
    → d < 2 ^ 31
    → pdc.tx_bm_base_psn ≡ add32 pdc.max_cack_psn c
    → tx_psn_allowed pdc (add32 pdc.max_cack_psn d)
      ≡ (leb c d && ltb d (c + 128) && (pdc.peer_mp_range == 0 || leb d pdc.peer_mp_range))
unfolding tx_psn_allowed psn_in_mpr
tx_psn_allowed_lem pdc c d hc hr lc ld e =
    rw (e, (psn_after_lem pdc.max_cack_psn d pdc.peer_mp_range hc ld hr).0) (ground arith)

-- The PDC after it takes a range over.
abbrev adopt : Pdc → ℕ → ℕ → Pdc
adopt pdc pds_mpr pds_cack_psn = record pdc {
  peer_mp_range = decode_mpr pds_mpr;
  mpr_update_cack_psn = pds_cack_psn;
  mpr_update_valid = true;
}

module _ (base i j : ℕ) (hb : base < 2 ^ 32) (hi : i < 2 ^ 31) (hj : j < 2 ^ 31) where
  process_mpr-distance :
      (pdc : Pdc) (n : ℕ)
      → pdc.mpr_update_cack_psn ≡ add32 base i
      → process_mpr pdc n (add32 base j)
        ≡ (if pdc.mpr_update_valid && leb j i then pdc else adopt pdc n (add32 base j))
  unfolding process_mpr
  process_mpr-distance pdc n e = rw (e, (psn_after_lem base j i hb hj hi).0, not_ltb i j)
    where
      not_ltb : (i j : ℕ) → not (ltb i j) ≡ leb j i
      not_ltb i j = ground arith

  process_mpr-adopt :
      (pdc : Pdc) (m n : ℕ)
      → process_mpr (adopt pdc m (add32 base i)) n (add32 base j)
        ≡ (if leb j i then adopt pdc m (add32 base i) else adopt pdc n (add32 base j))
  process_mpr-adopt pdc m n = process_mpr-distance (adopt pdc m (add32 base i)) n refl

-- What is refused is older than what is taken.
sooner :
    (pdc : Pdc) (c i j : ℕ)
    → (pdc.mpr_update_valid && leb i c) ≡ true
    → (pdc.mpr_update_valid && leb j c) ≡ false
    → leb i j ≡ true
sooner pdc c i j x y = ground arith

-- Two acknowledgements with distinct CACK PSNs, less than 2^31 past a common base as the last CACK
-- taken is, leave the same PDC in either order.
pub process_mpr_order :
    (pdc : Pdc) (base c i j m n : ℕ)
    → base < 2 ^ 32
    → c < 2 ^ 31
    → i < 2 ^ 31
    → j < 2 ^ 31
    → i ≢ j
    → pdc.mpr_update_cack_psn ≡ add32 base c
    → process_mpr (process_mpr pdc m (add32 base i)) n (add32 base j)
      ≡ process_mpr (process_mpr pdc n (add32 base j)) m (add32 base i)
process_mpr_order pdc base c i j m n hb hc hi hj ne e =
    let of_i = process_mpr-distance base c i hb hc hi pdc m e in
    let of_j = process_mpr-distance base c j hb hc hj pdc n e in
    let i_then_j = process_mpr-adopt base i j hb hi hj pdc m n in
    let j_then_i = process_mpr-adopt base j i hb hj hi pdc n m in
    elim (Bool-cases (pdc.mpr_update_valid && leb i c)) [
      | inl x ↦ elim (Bool-cases (pdc.mpr_update_valid && leb j c)) [
        | inl y ↦ rw (of_i, x, of_j, y, of_i, x)
        | inr y ↦ rw (of_i, x, of_j, y, j_then_i, sooner pdc c i j x y)
      ]
      | inr x ↦ elim (Bool-cases (pdc.mpr_update_valid && leb j c)) [
        | inl y ↦ rw (of_j, y, of_i, x, i_then_j, sooner pdc c j i y x)
        | inr y ↦
            rw (of_i, x, of_j, y, i_then_j, j_then_i)
              (elim (dec_lt i j) [
                | yes p ↦ rw (leb-false j i p, leb-true i j (omega arith))
                | no p ↦ rw (leb-true j i (omega arith), leb-false i j (omega arith))
              ])
      ]
    ]
