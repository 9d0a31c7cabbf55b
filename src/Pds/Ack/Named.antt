-- ===== src/Pds/Ack/Named.antt =====
-- Which packet an acknowledgement names explicitly.
use native.Mathlib.Decide.{dec_lt}
use uet_ref_prov.Base.{
  ℕ, ◌+◌, ◌-◌, ◌^◌, ◌≤◌, ◌<◌, ◌≡◌, sym, ap, ◌∙◌, inl, inr, true, false, none, some, pos, signed32,
  ltb, if◌then◌else◌, Bool-cases, arith, lt→ltb, ltb-false,
}
use uet_ref_prov.Bitmap.{bm_get}
use uet_ref_prov.Bitmap.Bits.{bit, datum}
use uet_ref_prov.Pds.Psn.{add32, sub32, psn_after, psn_in_mpr}
use uet_ref_prov.Pds.Psn.Laws.{psn_after_lem, psn_in_mpr_lem}
use uet_ref_prov.Pds.State.{World}
use uet_ref_prov.Pds.Rx.{found}
use uet_ref_prov.Pds.Rx.Window.{found_lem}
use uet_ref_prov.Pds.Tx.Cack.{acked}
use uet_ref_prov.Pds.Ack.{Explicit, unknown, already, first_time, explicit_of, explicit}
use uet_ref_prov.Pds.Ack.Sender.{IsSender}

-- The window, based at distance `s`, holds packet `p` for the PSN at distance `i`.
pub record Holds (w : World) (s i p : ℕ) : Type 0 where
  pub above : s ≤ i
  pub below : i < s + 128
  pub arrived : bit w.pdc.tx_bm (i - s) ≡ true
  pub packet : datum w.pdc.tx_bm (i - s) ≡ some p

-- What is known of the packet with the PSN at distance `i`: it lies in front of the window or is
-- acknowledged, or it is in the window for the first time, or there is none.
pub data Known (w : World) (s i : ℕ) : Explicit → Type 0 where
  before : i < s → Known w s i already
  twice : {p : ℕ} → Holds w s i p → acked w p ≡ true → Known w s i already
  once : {p : ℕ} → Holds w s i p → acked w p ≡ false → Known w s i (first_time p)
  absent : s ≤ i → (i < s + 128 → bit w.pdc.tx_bm (i - s) ≡ false) → Known w s i unknown

module _ (w : World) (anchor c s n i : ℕ) (sender : IsSender w.pdc anchor c s n)
    (near : i < 2 ^ 30) where
  pub starts : psn_after w.pdc.tx_bm_base_psn (add32 anchor i) ≡ ltb i s
  starts =
      ap (λ (x : ℕ). psn_after x (add32 anchor i)) sender.base
      ∙ (psn_after_lem anchor s i sender.small (omega (arith, sender.begun, sender.near))
          (omega (arith, near))).0

  module _ (above : s ≤ i) where
    from_base : add32 (add32 anchor s) (i - s) ≡ add32 anchor i
    from_base = omega (arith, above)

    in_range : psn_in_mpr (add32 anchor i) w.pdc.tx_bm_base_psn ≡ ltb (i - s) 128
    in_range =
        ap (psn_in_mpr (add32 anchor i)) sender.base
        ∙ ap (λ (x : ℕ). psn_in_mpr x (add32 anchor s)) (sym from_base)
        ∙ (psn_in_mpr_lem (add32 anchor s) (i - s) (omega arith) (omega (arith, near))).0

    index : signed32 (sub32 (add32 anchor i) w.pdc.tx_bm_base_psn) ≡ pos (i - s)
    index =
        ap (λ (x : ℕ). signed32 (sub32 (add32 anchor i) x)) sender.base
        ∙ ground (arith, above, near, sender.small)

    pub look :
        i < s + 128
        → found (bm_get w.pdc.tx_bm (signed32 (sub32 (add32 anchor i) w.pdc.tx_bm_base_psn)))
          ≡ (if bit w.pdc.tx_bm (i - s) then some (datum w.pdc.tx_bm (i - s)) else none)
    look h =
        ap (λ k. found (bm_get w.pdc.tx_bm k)) index
        ∙ found_lem w.pdc.tx_bm (i - s) sender.window (omega (arith, h, above))

    reads :
        i < s + 128
        → explicit w (add32 anchor i)
          ≡ explicit_of w.pkts
              (if bit w.pdc.tx_bm (i - s) then some (datum w.pdc.tx_bm (i - s)) else none)
    unfolding explicit
    reads h = rw (
      starts,
      ltb-false i s above,
      in_range,
      lt→ltb (i - s) 128 (omega (arith, h, above)),
      look h,
    )

    in_window :
        i < s + 128 → (k : Explicit) × (explicit w (add32 anchor i) ≡ some k) × Known w s i k
    in_window h = elim (Bool-cases (bit w.pdc.tx_bm (i - s))) [
      | inr b ↦ (unknown, reads h ∙ rw b, absent above (λ l. b))
      | inl b ↦
          let (q, d) = sender.window.held (i - s) (omega (arith, h, above)) b in
          let here : Holds w s i q = record { above = above; below = h; arrived = b; packet = d } in
          elim (Bool-cases (acked w q)) [
            | inl f ↦ (already, reads h ∙ rw (b, d, f), twice here f)
            | inr f ↦ (first_time q, reads h ∙ rw (b, d, f), once here f)
          ]
    ]

  -- It is found, without a null packet.
  pub explicit_lem : (k : Explicit) × (explicit w (add32 anchor i) ≡ some k) × Known w s i k
  unfolding explicit
  explicit_lem = elim (dec_lt i s) [
    | yes p ↦ (already, rw (starts, lt→ltb i s p), before p)
    | no p ↦
        let above : s ≤ i = omega (arith, p) in
        elim (dec_lt i (s + 128)) [
          | yes l ↦ in_window above l
          | no far ↦ (
            unknown,
            rw (
              starts,
              ltb-false i s above,
              in_range above,
              ltb-false (i - s) 128 (omega (arith, far)),
            ),
            absent above (λ h. absurd (far h)),
          )
        ]
  ]
