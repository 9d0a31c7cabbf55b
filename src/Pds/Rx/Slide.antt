-- ===== src/Pds/Rx/Slide.antt =====
-- The shift of the receive window after a cumulative acknowledgement.
use native.Mathlib.Decide.{dec_lt}
use mathlib.Core.Option
use mathlib.Core.Bool.{false≢true}
use uet_ref_prov.Base.{
  ℕ, zero, suc, ◌+◌, ◌-◌, ◌^◌, ◌≤◌, ◌<◌, ◌≡◌, refl, sym, ap, ◌∙◌, inl, inr, true, some, List, ◌∷◌,
  pos, ◌==◌, Bool-cases, ==_iff, arith, get_elem?, lt→ltb, ltb-false,
}
use uet_ref_prov.Bitmap.{Bitmap, bm_get, bm_shift_right}
use uet_ref_prov.Bitmap.Bits.{bit, datum}
use uet_ref_prov.Bitmap.ShiftLaws.{Shifted, right_bit, right_datum, bm_shift_right_lem}
use uet_ref_prov.Pds.Psn.{add32, sub32, psn_offset}
use uet_ref_prov.Pds.State.{Event, freed, World}
use uet_ref_prov.Pds.Rx.{found, free_round, free_range, shift_rx_by, shift_rx_window}
use uet_ref_prov.Pds.Rx.Window.{IsWindow, found_lem}

-- `out` is `events` with the packets at the indices from `i` on, `n` of them, freed in that order.
pub record Frees (bm : Bitmap ℕ) (n i : ℕ) (events out : List Event) : Type 0 where
  pub front : (j : ℕ) → j < n → get_elem? out (n - 1 - j) ≡ Option.map freed (datum bm (i + j))
  pub back : (j : ℕ) → get_elem? out (n + j) ≡ get_elem? events j

module _ (bm : Bitmap ℕ) (w : IsWindow bm) where
  free_range-suc :
      (n i : ℕ) (events : List Event)
      → free_range bm (suc n) i events
        ≡ free_round (free_range bm n (i + 1)) events (found (bm_get bm (pos i)))
  unfolding free_range
  free_range-suc n i events = refl

  pub Frees-cons :
      (n i p : ℕ) (events out : List Event)
      → datum bm i ≡ some p
      → Frees bm n (i + 1) (freed p ∷ events) out
      → Frees bm (suc n) i events out
  Frees-cons n i p events out e f = record {
    front = front;
    back = λ j. ap (get_elem? out) (omega arith) ∙ f.back (suc j);
  }
    where
      front :
          (j : ℕ) → j < suc n → get_elem? out (suc n - 1 - j) ≡ Option.map freed (datum bm (i + j))
      front zero h =
          ap (get_elem? out) (omega arith)
          ∙ f.back 0
          ∙ sym (ap (λ d. Option.map freed d) (ap (datum bm) (omega arith) ∙ e))
      front (suc j) h =
          ap (get_elem? out) (omega arith)
          ∙ f.front j (omega arith)
          ∙ ap (λ k. Option.map freed (datum bm k)) (omega arith)

  free_range-Frees :
      (n i : ℕ) (events : List Event)
      → i + n ≤ 128
      → ((k : ℕ) → i ≤ k → k < i + n → bit bm k ≡ true)
      → (out : List Event) × (free_range bm n i events ≡ some out) × Frees bm n i events out
  unfolding free_range
  free_range-Frees zero i events h b = (
    events,
    refl,
    record { front = λ j p. absurd (omega arith); back = λ j. ap (get_elem? events) (omega arith) },
  )
  free_range-Frees (suc n) i events h b =
      let (p, e) = w.held i (omega arith) (b i (omega arith) (omega arith)) in
      let (out, f, s) =
        free_range-Frees n (i + 1) (freed p ∷ events) (omega arith)
          (λ k l m. b k (omega arith) (omega arith)) in
      (
        out,
        rw
            (
              free_range-suc n i events,
              found_lem bm i w (omega arith),
              b i (omega arith) (omega arith),
              e,
            )
            f,
        Frees-cons n i p events out e s,
      )

-- A shift keeps a window.
pub shifted-IsWindow :
    (bm : Bitmap ℕ) (m : ℕ)
    → IsWindow bm
    → (s : Shifted bm (right_bit bm m) (right_datum bm m) (bm_shift_right bm m)) → IsWindow s.out
shifted-IsWindow bm m window s = record {
  valid = s.valid;
  full_size = s.same_size ∙ window.full_size;
  held = λ k h b. elim (dec_lt (k + m) bm.size) [
    | yes p ↦
        rw (s.pointers k (omega (arith, window.full_size)), lt→ltb (k + m) bm.size p)
          (window.held (k + m) (omega (arith, window.full_size)) (
            sym (rw (lt→ltb (k + m) bm.size p) at (s.bits k (omega (arith, window.full_size))))
            ∙ b))
    | no p ↦ absurd (
        false≢true (
          sym (
            rw (ltb-false (k + m) bm.size (omega arith)) at
              (s.bits k (omega (arith, window.full_size))))
          ∙ b))
  ];
}

-- What is left of a window after `m` PSNs have gone.
module _ (w : World) (window : IsWindow w.pdc.rx_bm) (m : ℕ) (fits : m ≤ 128) where
  -- The shift by `m`: the packets that leave the window are freed in order, the base moves on by
  -- `m`, bit and packet `i + m` move to `i`, and the rest of the PDC stays.
  pub record Slides (out : World) : Type 0 where
    pub rx_bm : Bitmap ℕ
    pub still : IsWindow rx_bm
    pub bits : (i : ℕ) → i < 128 → bit rx_bm i ≡ right_bit w.pdc.rx_bm m i
    pub packets : (i : ℕ) → i < 128 → datum rx_bm i ≡ right_datum w.pdc.rx_bm m i
    pub pdc :
        out.pdc ≡ record (w.pdc) { rx_bm = rx_bm; rx_bm_base_psn = add32 w.pdc.rx_bm_base_psn m }
    pub memory : (p : ℕ) → out.pkts p ≡ w.pkts p
    pub frees : Frees w.pdc.rx_bm m 0 w.events out.events

  -- The window after the shift of its bitmap.
  slide :
      (events : List Event)
      → Frees w.pdc.rx_bm m 0 w.events events
      → (s : Shifted w.pdc.rx_bm
          (right_bit w.pdc.rx_bm m)
          (right_datum w.pdc.rx_bm m)
          (bm_shift_right w.pdc.rx_bm m))
      → Slides (record w {
        pdc = record (w.pdc) { rx_bm = s.out; rx_bm_base_psn = add32 w.pdc.rx_bm_base_psn m };
        events = events;
      })
  slide events f s =
      let bits = λ (i : ℕ) (h : i < 128). s.bits i (omega (arith, window.full_size)) in
      let packets = λ (i : ℕ) (h : i < 128). s.pointers i (omega (arith, window.full_size)) in
      record {
        rx_bm = s.out;
        still = shifted-IsWindow w.pdc.rx_bm m window s;
        bits = bits;
        packets = packets;
        pdc = refl;
        memory = λ p. refl;
        frees = f;
      }

  -- No PSN to move past.
  slide_none : m ≡ 0 → w.pdc.rx_bm_base_psn < 2 ^ 32 → Slides w
  slide_none z hb = record {
    rx_bm = w.pdc.rx_bm;
    still = window;
    bits = λ i h.
        rw (lt→ltb (i + m) w.pdc.rx_bm.size (omega (arith, window.full_size)))
          (ap (bit w.pdc.rx_bm) {x = i} {y = i + m} (omega arith));
    packets = λ i h.
        rw (lt→ltb (i + m) w.pdc.rx_bm.size (omega (arith, window.full_size)))
          (ap (datum w.pdc.rx_bm) {x = i} {y = i + m} (omega arith));
    pdc = ap (λ b. record (w.pdc) { rx_bm_base_psn = b }) (omega arith);
    memory = λ p. refl;
    frees = record {
      front = λ j h. absurd (omega arith);
      back = λ j. ap (get_elem? w.events) (omega arith);
    };
  }

  shift_rx_by_lem :
      w.pdc.rx_bm_base_psn < 2 ^ 32
      → ((k : ℕ) → k < m → bit w.pdc.rx_bm k ≡ true)
      → (out : World) × (shift_rx_by w (pos m) ≡ some out) × Slides out
  unfolding shift_rx_by
  shift_rx_by_lem hb b = elim (Bool-cases (m == 0)) [
    | inl z ↦ (w, rw z, slide_none ((==_iff m 0).0 z) hb)
    | inr nz ↦
        let (events, e, f) =
          free_range-Frees w.pdc.rx_bm window m 0 w.events (omega arith)
            (λ k p q. b k (omega arith)) in
        let s = bm_shift_right_lem w.pdc.rx_bm window.valid m (omega (arith, window.full_size)) in
        (_, rw (nz, e, s.returns), slide events f s)
  ]

  -- `uet_pds_shift_rx_window` after an acknowledgement up to the `m`-th PSN of a sound window, where
  -- the packets of all these PSNs have arrived, returns, and slides the window by `m`: it frees
  -- these packets in order, moves bits and pointers down, and adds `m` to the base.
  pub shift_rx_window_lem :
      w.pdc.rx_bm_base_psn < 2 ^ 32
      → w.pdc.cack_psn ≡ sub32 (add32 w.pdc.rx_bm_base_psn m) 1
      → ((k : ℕ) → k < m → bit w.pdc.rx_bm k ≡ true)
      → (out : World) × (shift_rx_window w ≡ some out) × Slides out
  unfolding shift_rx_window
  shift_rx_window_lem hb hc b =
      let (out, e, s) = shift_rx_by_lem hb b in (out, ap (shift_rx_by w) (offset hc) ∙ e, s)
    where
      offset :
          w.pdc.cack_psn ≡ sub32 (add32 w.pdc.rx_bm_base_psn m) 1
          → psn_offset (add32 w.pdc.cack_psn 1) w.pdc.rx_bm_base_psn ≡ pos m
      offset e = rw e (ground arith)
