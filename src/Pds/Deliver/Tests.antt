-- ===== src/Pds/Deliver/Tests.antt =====
-- The delivery of two received packets to SES, and the theorems at it.
use uet_ref_prov.Base.{
  ℕ, ◌+◌, ◌≤◌, ◌≡◌, refl, sym, ap, ◌∙◌, Bool, true, false, ◌||◌, Option, some, [], pos, negsuc,
  ◌==◌, if◌then◌else◌, arith,
}
use uet_ref_prov.Bitmap.{Bitmap, bm_unset}
use uet_ref_prov.Bitmap.Bits.{bit, datum}
use uet_ref_prov.Bitmap.Update.{bit-bm_set, datum-bm_set}
use uet_ref_prov.Pds.Psn.{add32, sub32}
use uet_ref_prov.Pds.State.{World}
use uet_ref_prov.Pds.Tests.{empty, empty-IsWindow, empty-bit, pdc_of, pkts}
use uet_ref_prov.Pds.Rx.Window.{IsWindow}
use uet_ref_prov.Pds.Rx.Duplicate.{entered, entered-IsWindow}
use uet_ref_prov.Pds.Deliver.{SesAnswer, Settings, deliver_in_order}
use uet_ref_prov.Pds.Deliver.Upcall.{requests}
use uet_ref_prov.Pds.Deliver.Order.{Distinct, delivered, Delivers}
use uet_ref_prov.Pds.Deliver.InOrder.{deliver_in_order_lem}
use uet_ref_prov.Pds.Deliver.Loss.{refused_but_acknowledged}

-- Packets 1 and 2 of ROD at the base of the window.
abbrev one : Bitmap ℕ
one = entered pkts (pdc_of empty empty) empty-IsWindow (omega arith) 0 1 (omega arith)

one-IsWindow : IsWindow one
one-IsWindow =
    entered-IsWindow pkts (pdc_of empty empty) empty-IsWindow (omega arith) 0 1 (omega arith)

abbrev two : Bitmap ℕ
two = entered pkts (pdc_of empty one) one-IsWindow (omega arith) 1 2 (omega arith)

two-IsWindow : IsWindow two
two-IsWindow = entered-IsWindow pkts (pdc_of empty one) one-IsWindow (omega arith) 1 2 (omega arith)

two-bit : (j : ℕ) → bit two j ≡ (0 == j || 1 == j)
two-bit j =
    bit-bm_set one 1 one-IsWindow.valid (omega (arith, one-IsWindow.full_size)) (some 2) j
    ∙ ap (λ (x : Bool). x || 1 == j)
        (bit-bm_set empty 0 empty-IsWindow.valid (omega arith) (some 1) j
          ∙ ap (λ (x : Bool). x || 0 == j) (empty-bit j))

two-datum :
    (j : ℕ) → datum two j ≡ (if 1 == j then some 2 else if 0 == j then some 1 else datum empty j)
two-datum j =
    datum-bm_set one 1 one-IsWindow.valid (omega (arith, one-IsWindow.full_size)) (some 2) j
    ∙ ap (λ (x : Option ℕ). if 1 == j then some 2 else x)
        (datum-bm_set empty 0 empty-IsWindow.valid (omega arith) (some 1) j)

two-at : (j p : ℕ) → bit two j ≡ true → datum two j ≡ some p → p ≡ j + 1
two-at j p b e = by_cases (sym (two-bit j) ∙ b) (sym (two-datum j) ∙ e)
  where
    by_cases :
        (0 == j || 1 == j) ≡ true
        → (if 1 == j then some 2 else if 0 == j then some 1 else datum empty j) ≡ some p
        → p ≡ j + 1
    by_cases x y = ground arith

two-Distinct : Distinct two
two-Distinct j k p a b x y = omega (arith, two-at j p a x, two-at k p b y)

abbrev waiting : World
waiting = record { pdc = pdc_of empty two; pkts = pkts; events = [] }

-- A SES that refuses the second.
abbrev refuses_second : ℕ → SesAnswer
refuses_second p = record {
  buffer = true;
  code = if p == 2 then negsuc 4 else pos 0;
  nack = false;
  gtd_del = false;
}

abbrev plain : Settings
plain = record {
  ack_gen_trigger = 4096;
  ack_gen_min_pkt_add = 64;
  is_cc = false;
  per_pkt_ack_enabled = true;
}

deliver_in_order_example :
    (out : World) × (deliver_in_order plain refuses_second waiting ≡ some out)
    × Delivers refuses_second two (delivered waiting) 0 128 (requests []) (delivered waiting) out
deliver_in_order_example =
    deliver_in_order_lem plain refuses_second waiting two-IsWindow two-Distinct

refused_but_acknowledged_example :
    (out : World) × (m : ℕ) × (deliver_in_order plain refuses_second waiting ≡ some out)
    × (2 ≤ m)
    × (m ≤ 128)
    × (out.pdc.cack_psn ≡ sub32 (add32 0xfffffffe m) 1)
    × (out.pdc.rx_bm ≡ bm_unset two (pos 1))
refused_but_acknowledged_example =
    refused_but_acknowledged plain refuses_second waiting 1 2 two-IsWindow two-Distinct (two-bit 0)
      (two-bit 1) (two-datum 0) (two-datum 1) refl refl refl refl refl refl
