-- ===== src/Pds/Nack/Tests.antt =====
-- A NACK for the one packet in the window of a PDC, another start PSN, and a close in error.
use uet_ref_prov.Base.{◌≡◌, refl, true, false, some, [], ◌∷◌, pos, arith}
use uet_ref_prov.Pds.State.{PdcState}
use uet_ref_prov.Pds.Tests.{
  empty-IsWindow, one_packet-IsWindow, pkts, in_flight, in_flight-IsSender,
}
use uet_ref_prov.Pds.Ack.{Ack, check_pkt_src}
use uet_ref_prov.Pds.Ack.Sender.{IsSender}
use uet_ref_prov.Pds.Close.{Env, Sending, with_pdc, close_pdc_in_error}
use uet_ref_prov.Pds.Close.Drain.{errors, handles_onto}
use uet_ref_prov.Pds.Close.InError.{close_pdc_in_error_lem}
use uet_ref_prov.Pds.Nack.{rod_ooo, nack_established, reestablish_start_psn, process_nack}
use uet_ref_prov.Pds.Nack.Restart.{Restarted, reestablish_lem}
use uet_ref_prov.Pds.Nack.Outcome.{Nacked}
use uet_ref_prov.Pds.Nack.Whole.{process_nack_lem}

abbrev working : Env
working = record { ctrl_pkt = some 20; sent = λ p. pos 0; max_tx_retries = 3; has_pds_err = true }

abbrev waiting : Sending
waiting = record { world = in_flight; tx_list = 7 ∷ [] }

abbrev of_packet : Ack
of_packet = record {
  is_ipv6 = false;
  saddr = 9;
  spdcid = 5;
  psn = 0xfffffffe;
  cack_psn = 0;
  is_cc = false;
  mpr = 0;
  sack_base_psn = 0;
  sack_bitmap = 0;
  epsn = false;
  req_clr = false;
  carries = false;
  payload = 0;
}

process_nack_example :
    Nacked working waiting
      (with_pdc waiting (nack_established of_packet waiting.world.pdc))
      1
      5
      1
      (process_nack working rod_ooo of_packet waiting)
unfolding check_pkt_src
process_nack_example =
    process_nack_lem working rod_ooo of_packet waiting 0xfffffffd 0 1 5 1 in_flight-IsSender
      empty-IsWindow refl refl refl refl (omega arith) refl

close_pdc_in_error_example :
    (out : Sending) × (close_pdc_in_error working waiting ≡ some out)
    × (errors out.world.events ≡ handles_onto pkts (7 ∷ []) [])
close_pdc_in_error_example =
    close_pdc_in_error_lem working waiting refl one_packet-IsWindow empty-IsWindow

-- The PDC of a SYN packet.
abbrev opening : Sending
opening = with_pdc waiting (record (in_flight.pdc) { state = PdcState.syn })

opening-IsSender : IsSender opening.world.pdc 0xfffffffd 0 1 5
opening-IsSender = record {
  small = in_flight-IsSender.small;
  near = in_flight-IsSender.near;
  acked = in_flight-IsSender.acked;
  begun = in_flight-IsSender.begun;
  fits = in_flight-IsSender.fits;
  window = in_flight-IsSender.window;
  max_cack = in_flight-IsSender.max_cack;
  base = in_flight-IsSender.base;
  next = in_flight-IsSender.next;
  sent = in_flight-IsSender.sent;
}

reestablish_example :
    Restarted opening 100 0xfffffffd 0 1 5 (reestablish_start_psn working 100 opening)
reestablish_example =
    reestablish_lem working opening 100 0xfffffffd 0 1 5 1 opening-IsSender refl (omega arith)
      (λ e. omega (arith, e)) refl refl
