-- ===== src/Pds/Deliver.antt =====
-- uet_pds.c: how a request packet that has entered the receive window reaches SES
-- (uet_pds_upcall_ses_rx_req and uet_pds_process_data_pkt). What SES answers is an argument; the codes
-- of the sends are not looked at. `none` is a fault, as in the parts.
pub mod Upcall
pub mod Order
pub mod Rod
pub mod InOrder
pub mod Loss
mod Tests
use uet_ref_prov.Base.{
  is_zero, ℕ, zero, suc, ◌+◌, ◌-◌, ◌%◌, ◌^◌, Bool, true, false, not, ◌&&◌, ◌||◌, Option, none, some,
  List, ◌∷◌, ℤ, pos, negsuc, signed32, ◌==◌, ltb, if◌then◌else◌, ◌>>=◌,
}
use uet_ref_prov.Bitmap.{Bitmap, bm_get, bm_unset, bm_max}
use uet_ref_prov.Pds.Psn.{add32, sub32, update_psn}
use uet_ref_prov.Pds.State.{
  Pkt, Pdc, Memory, Event, freed, rx_req, ack_sent, nack_sent, World, write,
}
use uet_ref_prov.Pds.Rx.{
  found, einval, rounds_to, update_cack, update_sack_base, should_sack, shift_rx_window,
}

-- What SES does with a packet: whether there is a buffer for its response, its code, whether it asks
-- for a NACK, and whether its response is one to be delivered with a guarantee.
pub record SesAnswer : Type 0 where
  pub buffer : Bool
  pub code : ℤ
  pub nack : Bool
  pub gtd_del : Bool

-- `uet->pds`; `is_cc` is an ack_type of ACK_CC or ACK_CCX.
pub record Settings : Type 0 where
  pub ack_gen_trigger : ℕ
  pub ack_gen_min_pkt_add : ℕ
  pub is_cc : Bool
  pub per_pkt_ack_enabled : Bool

abbrev pub enomem : ℤ
enomem = negsuc 11

abbrev pub note : World → Event → World
note w e = record w { events = e ∷ w.events }

-- uet_pds_tx_ack_pkt: the packet has its ACK, and a SACK bitmap moves its base on.
unfoldable pub tx_ack_pkt : Settings → World → ℕ → World
tx_ack_pkt s w p = record w {
  pdc =
      if s.is_cc && not s.per_pkt_ack_enabled
      then update_sack_base w.pdc (w.pkts p).psn true
      else w.pdc;
  pkts = write w.pkts p (record (w.pkts p) { has_ack = true });
  events = ack_sent p ∷ w.events;
}

-- what the code counts for a packet that SES has taken
abbrev pub counted_in : Settings → Pdc → Pkt → Pdc
counted_in s pdc k = record pdc {
  accepted_bytes = add32 pdc.accepted_bytes (
      if ltb k.pkt_payload_len s.ack_gen_min_pkt_add
      then s.ack_gen_min_pkt_add
      else k.pkt_payload_len);
  max_rcvd_psn = update_psn pdc.max_rcvd_psn k.psn;
  prev_ar_psn = if k.asks_ar then update_psn pdc.prev_ar_psn k.psn else pdc.prev_ar_psn;
}

-- the acknowledgement, where one is due
abbrev pub ack_if_due : Settings → World → ℕ → World
ack_if_due s w p =
    if should_sack s.ack_gen_trigger w.pdc ((w.pkts p).asks_ar || (w.pkts p).is_syn_pkt)
      (w.pkts p).needs_clear
    then (let sent = tx_ack_pkt s w p in
        record sent { pdc = record (sent.pdc) { accepted_bytes = 0 } })
    else w

-- SES has taken packet `p`
unfoldable pub ses_taken : Settings → World → ℕ → Bool → Option World
ses_taken s w p gtd_del = do
  let pkts = write w.pkts p (record (w.pkts p) { needs_clear = gtd_del })
  pdc ← update_cack pkts (counted_in s w.pdc (w.pkts p)) (w.pkts p).pds_clear_psn
  some (ack_if_due s (record w { pdc = update_sack_base pdc (w.pkts p).psn false; pkts = pkts }) p)

-- uet_pds_upcall_ses_rx_req
unfoldable pub upcall_ses_rx_req : Settings → (ℕ → SesAnswer) → World → ℕ → Option (World × ℤ)
unfolding ses_taken
upcall_ses_rx_req s ses w p =
    if not (ses p).buffer
    then some (note w (nack_sent p), enomem)
    else if not (is_zero (ses p).code)
    then some (note (note w (rx_req p)) (nack_sent p), (ses p).code)
    else if (ses p).nack
    then some (note (note w (rx_req p)) (nack_sent p), einval)
    else do done ← ses_taken s (note w (rx_req p)) p (ses p).gtd_del; some (done, pos 0)

abbrev pub unset : World → ℤ → World
unset w i = record w { pdc = record (w.pdc) { rx_bm = bm_unset w.pdc.rx_bm i } }

-- A packet of RUD
unfoldable pub deliver_rud : Settings → (ℕ → SesAnswer) → World → ℕ → Option (World × ℤ)
unfolding upcall_ses_rx_req
deliver_rud s ses w p = do
  (done, rc) ← upcall_ses_rx_req s ses w p
  if is_zero rc
      then (do shifted ← shift_rx_window done; some (shifted, pos 0))
      else some (unset done (signed32 (sub32 (w.pkts p).psn done.pdc.rx_bm_base_psn)), rc)

-- after the upcall for the packet at index `i`; `next` are the later rounds
abbrev pub rod_after : (World → Option World) → ℕ → ℕ → Option (World × ℤ) → Option World
rod_after next i p none = none
rod_after next i p (some (w, rc)) =
    if is_zero rc
    then next (record w { pkts = write w.pkts p (record (w.pkts p) { reordered = true }) })
    else some (note (unset w (pos i)) (freed p))

-- a round of the loop for ROD, for what `bm_get` found at index `i`
abbrev pub rod_round :
    Settings
    → (ℕ → SesAnswer)
    → (World → Option World)
    → ℕ
    → World
    → Option (Option ℕ)
    → Option World
rod_round s ses next i w none = some w
rod_round s ses next i w (some none) = none
rod_round s ses next i w (some (some p)) =
    if (w.pkts p).reordered then next w else rod_after next i p (upcall_ses_rx_req s ses w p)

-- the loop from index `i`, with `n` rounds left
pub rod_from : Settings → (ℕ → SesAnswer) → ℕ → ℕ → World → Option World
rod_from s ses zero i w = some w
rod_from s ses (suc n) i w =
    rod_round s ses (rod_from s ses n (i + 1)) i w (found (bm_get w.pdc.rx_bm (pos i)))

unfoldable pub deliver_in_order : Settings → (ℕ → SesAnswer) → World → Option World
unfolding rod_from
deliver_in_order s ses w = rod_from s ses (rounds_to (bm_max w.pdc.rx_bm)) 0 w

unfoldable pub deliver_rod : Settings → (ℕ → SesAnswer) → World → Option (World × ℤ)
unfolding deliver_in_order
deliver_rod s ses w = do
  done ← deliver_in_order s ses w
  shifted ← shift_rx_window done
  some (shifted, pos 0)

-- uet_pds_process_data_pkt
unfoldable pub process_data_pkt : Settings → (ℕ → SesAnswer) → World → ℕ → Option (World × ℤ)
unfolding deliver_rud deliver_rod
process_data_pkt s ses w p =
    if (w.pkts p).is_rod then deliver_rod s ses w else deliver_rud s ses w p
