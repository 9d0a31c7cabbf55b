-- ===== src/Pds/Free/Loop.antt =====
-- The loops of uet_pdsm_free_pdc_pkts: which packets they free.
use native.Mathlib.Decide.{dec_lt}
use uet_ref_prov.Base.{
  true, ℕ, zero, suc, ◌+◌, ◌-◌, ◌≤◌, ◌<◌, ◌≡◌, refl, sym, ap, ◌∙◌, Bool, false, Option, none, some,
  List, ◌∷◌, pos, if◌then◌else◌, arith,
}
use uet_ref_prov.Bitmap.{Bitmap, bm_get, bm_clear, bm_next_set_bit_iter}
use uet_ref_prov.Bitmap.Bits.{bit, datum, bit-bm_clear}
use uet_ref_prov.Bitmap.Search.{IsFirst, bm_next_set_bit_iter_end, bm_next_set_bit_iter_lem}
use uet_ref_prov.Pds.State.{PdcState, Event, freed, pdc_freed, World}
use uet_ref_prov.Pds.Rx.{found}
use uet_ref_prov.Pds.Rx.Window.{IsWindow, found_lem}
use uet_ref_prov.Pds.Free.{free_found, free_at, free_tracked, free_pdc}

-- A packet that is there, freed.
abbrev pub released : Bool → Option ℕ → List Event → List Event
released true (some p) events = freed p ∷ events
released true none events = events
released false o events = events

released_lem :
    (b : Bool) (o : Option ℕ) (events : List Event)
    → released b o events ≡ free_found events (if b then some o else none)
released_lem true (some p) events = refl
released_lem true none events = refl
released_lem false o events = refl

-- The packets at the indices from `i` on, `n` of them, freed one after the other.
unfoldable pub tracked : Bitmap ℕ → ℕ → ℕ → List Event → List Event
tracked bm zero i events = events
tracked bm (suc n) i events = tracked bm n (i + 1) (released (bit bm i) (datum bm i) events)

-- Nothing is freed where no bit is set.
tracked_clear :
    (bm : Bitmap ℕ) (d n i : ℕ) (events : List Event)
    → ((k : ℕ) → i ≤ k → k < i + d → bit bm k ≡ false)
    → tracked bm (d + n) i events ≡ tracked bm n (i + d) events
unfolding tracked
tracked_clear bm zero n i events clear =
    ap (λ (x : ℕ). tracked bm x i events) {x = 0 + n} {y = n} (omega arith)
    ∙ ap (λ (x : ℕ). tracked bm n x events) (omega arith)
tracked_clear bm (suc d) n i events clear =
    ap (λ (x : ℕ). tracked bm x i events) {x = suc d + n} {y = suc (d + n)} (omega arith)
    ∙ ap (λ (b : Bool). tracked bm (d + n) (i + 1) (released b (datum bm i) events))
        (clear i (omega arith) (omega arith))
    ∙ tracked_clear bm d n (i + 1) events (λ k p q. clear k (omega (arith, p)) (omega (arith, q)))
    ∙ ap (λ (x : ℕ). tracked bm n x events) (omega arith)

module _ (bm : Bitmap ℕ) (window : IsWindow bm) where
  iter_at_end : bm_next_set_bit_iter bm 128 ≡ none
  iter_at_end =
      ap (bm_next_set_bit_iter bm) (sym window.full_size) ∙ bm_next_set_bit_iter_end bm window.valid

  tracked_none : (i : ℕ) (events : List Event) → tracked bm 0 i events ≡ events
  unfolding tracked
  tracked_none i events = refl

  -- The indices from `i` to the first packet, at `k`, and on.
  tracked_first :
      (n i k : ℕ) (events : List Event)
      → i ≤ k
      → i + n ≡ 128
      → k < 128
      → ((j : ℕ) → i ≤ j → j < k → bit bm j ≡ false)
      → tracked bm (128 - (k + 1)) (k + 1) (free_found events (found (bm_get bm (pos k))))
        ≡ tracked bm n i events
  unfolding tracked
  tracked_first n i k events h e l clear =
      ap (λ (o : Option (Option ℕ)). tracked bm (128 - (k + 1)) (k + 1) (free_found events o))
        (found_lem bm k window l)
      ∙ ap (tracked bm (128 - (k + 1)) (k + 1)) (sym (released_lem (bit bm k) (datum bm k) events))
      ∙ sym (
          ap (λ (x : ℕ). tracked bm x i events) {x = n} {y = k - i + suc (128 - (k + 1))}
            (omega (arith, h, e, l))
          ∙ tracked_clear bm (k - i) (suc (128 - (k + 1))) i events
              (λ j p q. clear j p (omega (arith, q, h)))
          ∙ ap (λ (x : ℕ). tracked bm (suc (128 - (k + 1))) x events) {x = i + (k - i)} {y = k}
              (omega (arith, h)))

  free_tracked-suc :
      (fuel i : ℕ) (events : List Event)
      → free_tracked bm (suc fuel) i events
        ≡ free_at bm (free_tracked bm fuel) events (bm_next_set_bit_iter bm i)
  unfolding free_tracked
  free_tracked-suc fuel i events = refl

  -- With fuel for more rounds than there are indices left, the loop frees the packets of the bits
  -- that are set, in order.
  free_tracked-tracked :
      (fuel n i : ℕ) (events : List Event)
      → i + n ≡ 128
      → n < fuel
      → free_tracked bm fuel i events ≡ some (tracked bm n i events)
  free_tracked-tracked zero n i events e h = absurd (omega (arith, h))
  free_tracked-tracked (suc fuel) n i events e h = elim (dec_lt i 128) [
    | no p ↦
        free_tracked-suc fuel i events
        ∙ ap (free_at bm (free_tracked bm fuel) events)
            (ap (bm_next_set_bit_iter bm) {x = i} {y = 128} (omega (arith, e, p)) ∙ iter_at_end)
        ∙ sym (ended (omega (arith, e, p)))
    | yes p ↦
        free_tracked-suc fuel i events
        ∙ next (bm_next_set_bit_iter bm i)
            (bm_next_set_bit_iter_lem bm window.valid i (omega (arith, p, window.full_size)))
            (free_tracked-tracked fuel)
  ]
    where
      ended : n ≡ 0 → some (tracked bm n i events) ≡ some events
      ended z =
          ap (λ (x : ℕ). some (tracked bm x i events)) z
          ∙ ap (λ (l : List Event). some l) (tracked_none i events)

      next :
          (r : Option ℕ)
          → IsFirst (bit bm) i bm.size r
          → ((n i : ℕ) (events : List Event)
              → i + n ≡ 128
              → n < fuel
              → free_tracked bm fuel i events ≡ some (tracked bm n i events))
          → free_at bm (free_tracked bm fuel) events r ≡ some (tracked bm n i events)
      next none f ih =
          ap (λ (l : List Event). some l)
            (sym (
              ap (λ (x : ℕ). tracked bm x i events) {x = n} {y = n + 0} (omega arith)
              ∙ tracked_clear bm n 0 i events
                  (λ k p q. f k p (omega (arith, q, e, window.full_size)))
              ∙ tracked_none (i + n) events))
      next (some k) f ih =
          ih (128 - (k + 1)) (k + 1) (free_found events (found (bm_get bm (pos k))))
            (omega (arith, f.1, window.full_size)) (omega (arith, h, e, f.0, f.1, window.full_size))
          ∙ ap (λ (l : List Event). some l)
              (tracked_first n i k events f.0 e (omega (arith, f.1, window.full_size)) f.3)

-- A PDC on the free list: its windows are empty, and their packets are freed, those of the transmit
-- window first.
abbrev pub freed_pdc : World → World
freed_pdc w = record w {
  pdc = record (w.pdc) {
    state = PdcState.unalloc;
    tx_bm = bm_clear w.pdc.tx_bm;
    rx_bm = bm_clear w.pdc.rx_bm;
    close_requested = false;
    close_started = false;
    close_cmd_psn = 0;
    active_msg_id_valid = false;
  };
  events = pdc_freed ∷ tracked w.pdc.rx_bm 128 0 (tracked w.pdc.tx_bm 128 0 w.events);
}

-- On sound windows uet_pdsm_free_pdc ends; it frees the packets of the bits that are set and no other,
-- each once and in the order of their PSNs, and leaves a PDC with empty windows that is not allocated.
pub free_pdc_lem :
    (w : World)
    → IsWindow w.pdc.tx_bm
    → IsWindow w.pdc.rx_bm
    → (free_pdc w ≡ some (freed_pdc w))
      × ((k : ℕ)
          → k < 128
          → (bit (freed_pdc w).pdc.tx_bm k ≡ false) × (bit (freed_pdc w).pdc.rx_bm k ≡ false))
unfolding free_pdc
free_pdc_lem w of_tx of_rx = (
  rw
      (
        free_tracked-tracked w.pdc.tx_bm of_tx (suc w.pdc.tx_bm.size) 128 0 w.events (omega arith)
            (omega (arith, of_tx.full_size)),
        free_tracked-tracked w.pdc.rx_bm of_rx (suc w.pdc.rx_bm.size) 128 0
            (tracked w.pdc.tx_bm 128 0 w.events) (omega arith) (omega (arith, of_rx.full_size)),
      )
      refl,
  λ k h. (
    bit-bm_clear w.pdc.tx_bm k of_tx.valid (omega (arith, h, of_tx.full_size)),
    bit-bm_clear w.pdc.rx_bm k of_rx.valid (omega (arith, h, of_rx.full_size)),
  ),
)
