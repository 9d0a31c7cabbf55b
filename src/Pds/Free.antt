-- ===== src/Pds/Free.antt =====
-- uet_pds.c: uet_pdsm_free_pdc with the packets that its windows still hold. `none` is no fuel left.
pub mod Loop
use uet_ref_prov.Base.{ℕ, zero, suc, ◌+◌, true, false, Option, none, some, List, ◌∷◌, pos, ◌>>=◌}
use uet_ref_prov.Bitmap.{Bitmap, bm_get, bm_clear, bm_next_set_bit_iter}
use uet_ref_prov.Pds.State.{PdcState, Pdc, Event, freed, pdc_freed, World}
use uet_ref_prov.Pds.Rx.{found}

-- the packet at an index, if it is there
abbrev pub free_found : List Event → Option (Option ℕ) → List Event
free_found events none = events
free_found events (some none) = events
free_found events (some (some p)) = freed p ∷ events

-- a round of `for (i = 0; bm_next_set_bit_iter(bm, &i); i++)`, for what the iterator found
abbrev pub free_at :
    Bitmap ℕ → (ℕ → List Event → Option (List Event)) → List Event → Option ℕ → Option (List Event)
free_at bm next events none = some events
free_at bm next events (some i) = next (i + 1) (free_found events (found (bm_get bm (pos i))))

pub free_tracked : Bitmap ℕ → ℕ → ℕ → List Event → Option (List Event)
free_tracked bm zero i events = none
free_tracked bm (suc fuel) i events =
    free_at bm (free_tracked bm fuel) events (bm_next_set_bit_iter bm i)

-- The loop moves on by one at least in each round, so that the size of the bitmap bounds it.
unfoldable pub free_pdc : World → Option World
unfolding free_tracked
free_pdc w = do
  of_tx ← free_tracked w.pdc.tx_bm (suc w.pdc.tx_bm.size) 0 w.events
  of_rx ← free_tracked w.pdc.rx_bm (suc w.pdc.rx_bm.size) 0 of_tx
  some (record w {
    pdc = record (w.pdc) {
      state = PdcState.unalloc;
      tx_bm = bm_clear w.pdc.tx_bm;
      rx_bm = bm_clear w.pdc.rx_bm;
      close_requested = false;
      close_started = false;
      close_cmd_psn = 0;
      active_msg_id_valid = false;
    };
    events = pdc_freed ∷ of_rx;
  })
