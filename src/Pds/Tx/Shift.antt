-- ===== src/Pds/Tx/Shift.antt =====
-- `uet_pds_shift_tx_window` as one shift by the run of acknowledged packets at its base.
pub mod Loop
use native.Mathlib.Decide.{dec_lt}
use mathlib.Core.Option
use uet_ref_prov.Base.{
  ℕ, zero, suc, ◌+◌, ◌^◌, ◌≤◌, ◌<◌, ◌≡◌, refl, sym, ap, ◌∙◌, inl, inr, Bool, true, false, ◌&&◌,
  Option, none, some, ◌∷◌, pos, ltb, if◌then◌else◌, Bool-cases, arith, get_elem?, lt→ltb, ltb-false,
}
use uet_ref_prov.Bitmap.{Bitmap, bm_get, bm_shift_right}
use uet_ref_prov.Bitmap.Bits.{bit, datum}
use uet_ref_prov.Bitmap.ShiftLaws.{Shifted, right_bit, right_datum, bm_shift_right_lem}
use uet_ref_prov.Pds.Psn.{add32}
use uet_ref_prov.Pds.State.{Memory, freed, World}
use uet_ref_prov.Pds.Rx.{found}
use uet_ref_prov.Pds.Rx.Window.{IsWindow, found_lem}
use uet_ref_prov.Pds.Rx.Slide.{Frees, Frees-cons, shifted-IsWindow}
use uet_ref_prov.Pds.Tx.{shift_round, shift_tx_from, shift_tx_window}

-- The window holds an acknowledged packet at index `k`.
abbrev pub acked_of : Memory → Bool → Option ℕ → Bool
acked_of pkts b none = false
acked_of pkts b (some p) = b && (pkts p).tx_pkt_acked

abbrev pub acked_at : Bitmap ℕ → Memory → ℕ → Bool
acked_at bm pkts k = acked_of pkts (bit bm k) (datum bm k)

-- `out` is `w` with its window moved on by `m`: the packets that leave it, all of them acknowledged,
-- are freed in order; the packet after them, if it lies in the window, is not acknowledged.
pub record Advances (w out : World) (m : ℕ) : Type 0 where
  pub tx_bm : Bitmap ℕ
  pub still : IsWindow tx_bm
  pub run : (k : ℕ) → k < m → acked_at w.pdc.tx_bm w.pkts k ≡ true
  pub stop : m < 128 → acked_at w.pdc.tx_bm w.pkts m ≡ false
  pub bits : (i : ℕ) → i < 128 → bit tx_bm i ≡ right_bit w.pdc.tx_bm m i
  pub packets : (i : ℕ) → i < 128 → datum tx_bm i ≡ right_datum w.pdc.tx_bm m i
  pub pdc :
      out.pdc ≡ record (w.pdc) { tx_bm = tx_bm; tx_bm_base_psn = add32 w.pdc.tx_bm_base_psn m }
  pub memory : (p : ℕ) → out.pkts p ≡ w.pkts p
  pub frees : Frees w.pdc.tx_bm m 0 w.events out.events

-- A shift by 1 and then by `m` is one by `suc m`.
twice :
    {A : Type 0} (f g : ℕ → A) (d : A) (n n' : ℕ)
    → n ≡ 128
    → n' ≡ 128
    → ((k : ℕ) → k < 128 → f k ≡ (if ltb (k + 1) n' then g (k + 1) else d))
    → (m i : ℕ)
    → (if ltb (i + m) n then f (i + m) else d) ≡ (if ltb (i + suc m) n' then g (i + suc m) else d)
twice f g d n n' e e' h m i = elim (dec_lt (i + m) 128) [
  | yes p ↦ rw (lt→ltb (i + m) n (omega (arith, e))) (
      h (i + m) p
      ∙ ap (λ k. if ltb k n' then g k else d) {x = i + m + 1} {y = i + suc m} (omega arith))
  | no p ↦ rw (ltb-false (i + m) n (omega (arith, e)), ltb-false (i + suc m) n' (omega (arith, e')))
]

module _ (w : World) (window : IsWindow w.pdc.tx_bm) (small : w.pdc.tx_bm_base_psn < 2 ^ 32) where
  pub Advances-none : acked_at w.pdc.tx_bm w.pkts 0 ≡ false → Advances w w 0
  Advances-none e = record {
    tx_bm = w.pdc.tx_bm;
    still = window;
    run = λ k p. absurd (omega arith);
    stop = λ p. e;
    bits = λ i h.
        rw (lt→ltb (i + 0) w.pdc.tx_bm.size (omega (arith, window.full_size)))
          (ap (bit w.pdc.tx_bm) {x = i} {y = i + 0} (omega arith));
    packets = λ i h.
        rw (lt→ltb (i + 0) w.pdc.tx_bm.size (omega (arith, window.full_size)))
          (ap (datum w.pdc.tx_bm) {x = i} {y = i + 0} (omega arith));
    pdc = ap (λ b. record (w.pdc) { tx_bm_base_psn = b }) (omega arith);
    memory = λ p. refl;
    frees = record {
      front = λ j h. absurd (omega arith);
      back = λ j. ap (get_elem? w.events) (omega arith);
    };
  }

  -- The world after one round.
  abbrev pub shifted : Bitmap ℕ → ℕ → World
  shifted tx_bm p = record w {
    pdc = record (w.pdc) { tx_bm = tx_bm; tx_bm_base_psn = add32 w.pdc.tx_bm_base_psn 1 };
    events = freed p ∷ w.events;
  }

  module _ (p : ℕ) (held : datum w.pdc.tx_bm 0 ≡ some p) (arrived : bit w.pdc.tx_bm 0 ≡ true)
      (acked : (w.pkts p).tx_pkt_acked ≡ true) (tx_bm : Bitmap ℕ) (full : tx_bm.size ≡ 128)
      (bits : (i : ℕ) → i < 128 → bit tx_bm i ≡ right_bit w.pdc.tx_bm 1 i)
      (packets : (i : ℕ) → i < 128 → datum tx_bm i ≡ right_datum w.pdc.tx_bm 1 i) where
    bit_later : (k : ℕ) → k < 127 → bit tx_bm k ≡ bit w.pdc.tx_bm (k + 1)
    bit_later k h =
        bits k (omega arith)
        ∙ rw (lt→ltb (k + 1) w.pdc.tx_bm.size (omega (arith, window.full_size)))

    datum_later : (k : ℕ) → k < 127 → datum tx_bm k ≡ datum w.pdc.tx_bm (k + 1)
    datum_later k h =
        packets k (omega arith)
        ∙ rw (lt→ltb (k + 1) w.pdc.tx_bm.size (omega (arith, window.full_size)))

    acked_later : (k : ℕ) → k < 127 → acked_at tx_bm w.pkts k ≡ acked_at w.pdc.tx_bm w.pkts (k + 1)
    acked_later k h = rw (bit_later k h, datum_later k h)

    pub Advances-cons :
        (m : ℕ) (out : World) → m < 128 → Advances (shifted tx_bm p) out m → Advances w out (suc m)
    Advances-cons m out h a = record {
      tx_bm = a.tx_bm;
      still = a.still;
      run = run;
      stop = λ q.
          ap (acked_at w.pdc.tx_bm w.pkts) (omega arith)
          ∙ sym (acked_later m (omega arith))
          ∙ a.stop h;
      bits = λ i q.
          a.bits i q
          ∙ twice (bit tx_bm) (bit w.pdc.tx_bm) false tx_bm.size w.pdc.tx_bm.size full
              window.full_size bits m i;
      packets = λ i q.
          a.packets i q
          ∙ twice (datum tx_bm) (datum w.pdc.tx_bm) none tx_bm.size w.pdc.tx_bm.size full
              window.full_size packets m i;
      pdc = a.pdc ∙ ap (λ b. record (w.pdc) { tx_bm = a.tx_bm; tx_bm_base_psn = b }) (omega arith);
      memory = a.memory;
      frees = Frees-cons w.pdc.tx_bm window m 0 p w.events out.events held later;
    }
      where
        later : Frees w.pdc.tx_bm m (0 + 1) (freed p ∷ w.events) out.events
        later = record {
          front = λ j q.
              a.frees.front j q
              ∙ ap (λ d. Option.map freed d)
                  (ap (datum tx_bm) {x = 0 + j} {y = j} (omega arith)
                    ∙ datum_later j (omega arith)
                    ∙ ap (datum w.pdc.tx_bm) (omega arith));
          back = a.frees.back;
        }

        run : (k : ℕ) → k < suc m → acked_at w.pdc.tx_bm w.pkts k ≡ true
        run zero q = rw (held, arrived, acked)
        run (suc k) q =
            ap (acked_at w.pdc.tx_bm w.pkts) (omega arith)
            ∙ sym (acked_later k (omega arith))
            ∙ a.run k (omega arith)
