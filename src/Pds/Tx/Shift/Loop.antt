-- ===== src/Pds/Tx/Shift/Loop.antt =====
-- The loop of `uet_pds_shift_tx_window`: it ends, and where.
use native.Mathlib.Decide.{dec_lt}
use uet_ref_prov.Base.{
  ℕ, zero, suc, ◌+◌, ◌^◌, ◌≤◌, ◌<◌, ◌≡◌, refl, ap, ◌∙◌, inl, inr, true, false, Option, none, some,
  pos, Bool-cases, arith, lt→ltb, ltb-false,
}
use uet_ref_prov.Bitmap.{bm_get, bm_shift_right}
use uet_ref_prov.Bitmap.Bits.{bit, datum}
use uet_ref_prov.Bitmap.ShiftLaws.{Shifted, right_bit, right_datum, bm_shift_right_lem}
use uet_ref_prov.Pds.State.{Memory, World}
use uet_ref_prov.Pds.Rx.{found}
use uet_ref_prov.Pds.Rx.Window.{IsWindow, found_lem}
use uet_ref_prov.Pds.Rx.Slide.{shifted-IsWindow}
use uet_ref_prov.Pds.Tx.{shift_round, shift_tx_from, shift_tx_window}
use uet_ref_prov.Pds.Tx.Shift.{acked_of, Advances, Advances-none, Advances-cons, shifted}

acked_of_clear : (pkts : Memory) (d : Option ℕ) → acked_of pkts false d ≡ false
acked_of_clear pkts none = refl
acked_of_clear pkts (some p) = refl

shift_tx_from-suc :
    (fuel : ℕ) (w : World)
    → shift_tx_from (suc fuel) w
      ≡ shift_round (shift_tx_from fuel) w (found (bm_get w.pdc.tx_bm (pos 0)))
unfolding shift_tx_from
shift_tx_from-suc fuel w = refl

-- What `n + 1` rounds do to a window whose bits from `n` on are clear.
Done : ℕ → World → Type 0
Done n w =
    (m : ℕ) × (out : World) × (m ≤ n) × (shift_tx_from (suc n) w ≡ some out) × Advances w out m

module _ (w : World) (window : IsWindow w.pdc.tx_bm) (small : w.pdc.tx_bm_base_psn < 2 ^ 32)
    (n : ℕ) where
  stops_clear : bit w.pdc.tx_bm 0 ≡ false → Done n w
  unfolding Done
  stops_clear e = (
    0,
    w,
    omega arith,
    rw (shift_tx_from-suc n w, found_lem w.pdc.tx_bm 0 window (omega arith), e),
    Advances-none w window small (rw e (acked_of_clear w.pkts (datum w.pdc.tx_bm 0))),
  )

  module _ (p : ℕ) (e : bit w.pdc.tx_bm 0 ≡ true) (held : datum w.pdc.tx_bm 0 ≡ some p) where
    stops_unacked : (w.pkts p).tx_pkt_acked ≡ false → Done n w
    unfolding Done
    stops_unacked f = (
      0,
      w,
      omega arith,
      rw (shift_tx_from-suc n w, found_lem w.pdc.tx_bm 0 window (omega arith), e, held, f),
      Advances-none w window small (rw (e, held, f)),
    )

    goes_on :
        (w.pkts p).tx_pkt_acked ≡ true
        → n < 128
        → (s : Shifted w.pdc.tx_bm
            (right_bit w.pdc.tx_bm 1)
            (right_datum w.pdc.tx_bm 1)
            (bm_shift_right w.pdc.tx_bm 1))
        → Done n (shifted w window small s.out p)
        → Done (suc n) w
    unfolding Done
    goes_on f h s (m, out, l, r, a) = (
      suc m,
      out,
      omega arith,
      rw
          (
            shift_tx_from-suc (suc n) w,
            found_lem w.pdc.tx_bm 0 window (omega arith),
            e,
            held,
            f,
            s.returns,
          )
          r,
      Advances-cons w window small p held e f s.out (s.same_size ∙ window.full_size)
          (λ i q. s.bits i (omega (arith, window.full_size)))
          (λ i q. s.pointers i (omega (arith, window.full_size))) m out (omega arith) a,
    )

shift_tx_from-Done :
    (n : ℕ) (w : World)
    → IsWindow w.pdc.tx_bm
    → w.pdc.tx_bm_base_psn < 2 ^ 32
    → n ≤ 128
    → ((k : ℕ) → n ≤ k → k < 128 → bit w.pdc.tx_bm k ≡ false)
    → Done n w
shift_tx_from-Done zero w window small h clear =
    stops_clear w window small 0 (clear 0 (omega arith) (omega arith))
shift_tx_from-Done (suc n) w window small h clear = elim (Bool-cases (bit w.pdc.tx_bm 0)) [
  | inr e ↦ stops_clear w window small (suc n) e
  | inl e ↦
      let (p, held) = window.held 0 (omega arith) e in
      elim (Bool-cases (w.pkts p).tx_pkt_acked) [
        | inr f ↦ stops_unacked w window small (suc n) p e held f
        | inl f ↦
            let s =
              bm_shift_right_lem w.pdc.tx_bm window.valid 1 (omega (arith, window.full_size)) in
            goes_on w window small n p e held f (omega arith) s (
              shift_tx_from-Done n (shifted w window small s.out p)
                (shifted-IsWindow w.pdc.tx_bm 1 window s) (omega arith) (omega arith) (cleared s))
      ]
]
  where
    cleared :
        (s : Shifted w.pdc.tx_bm
          (right_bit w.pdc.tx_bm 1)
          (right_datum w.pdc.tx_bm 1)
          (bm_shift_right w.pdc.tx_bm 1))
        → (k : ℕ) → n ≤ k
        → k < 128
        → bit s.out k ≡ false
    cleared s k p q =
        s.bits k (omega (arith, window.full_size)) ∙ elim (dec_lt (k + 1) w.pdc.tx_bm.size) [
          | yes l ↦
              rw (lt→ltb (k + 1) w.pdc.tx_bm.size l)
                (clear (k + 1) (omega arith) (omega (arith, window.full_size)))
          | no l ↦ rw (ltb-false (k + 1) w.pdc.tx_bm.size (omega arith))
        ]

-- On a sound window `uet_pds_shift_tx_window` ends, without a fault, and moves the window on by the
-- run of acknowledged packets at its base: it frees them in order, and stops at the first index
-- that holds no acknowledged packet.
pub shift_tx_window_lem :
    (w : World)
    → IsWindow w.pdc.tx_bm
    → w.pdc.tx_bm_base_psn < 2 ^ 32
    → (m : ℕ) × (out : World) × (m ≤ 128) × (shift_tx_window w ≡ some out) × Advances w out m
unfolding shift_tx_window Done
shift_tx_window_lem w window small =
    let (m, out, l, r, a) =
      shift_tx_from-Done 128 w window small (omega arith) (λ k p q. absurd (omega arith)) in
    (m, out, l, ap (λ n. shift_tx_from (suc n) w) window.full_size ∙ r, a)
