-- ===== src/Pds/Deliver/InOrder.antt =====
-- The delivery of ROD over the whole window.
use native.Mathlib.Decide.{dec_lt}
use uet_ref_prov.Base.{
  ℕ, suc, ◌+◌, ◌≤◌, ◌<◌, ◌≡◌, refl, inl, inr, Bool, false, Option, none, some, List, arith,
}
use uet_ref_prov.Bitmap.{Bitmap}
use uet_ref_prov.Bitmap.Bits.{bit}
use uet_ref_prov.Bitmap.Search.{IsLast, index_or_minus_one, bm_max_lem}
use uet_ref_prov.Pds.State.{World}
use uet_ref_prov.Pds.Rx.{rounds_to}
use uet_ref_prov.Pds.Rx.Window.{IsWindow}
use uet_ref_prov.Pds.Deliver.{SesAnswer, Settings, rod_from, deliver_in_order}
use uet_ref_prov.Pds.Deliver.Upcall.{requests}
use uet_ref_prov.Pds.Deliver.Order.{Distinct, delivered, Delivers}
use uet_ref_prov.Pds.Deliver.Rod.{rod_from-Runs}

-- A delivery up to the last bit that is set is one of the whole window.
widen :
    (ses : ℕ → SesAnswer) (bm : Bitmap ℕ) (old was : ℕ → Bool) (hi : ℕ) (seen : List ℕ)
    (out : World)
    → hi ≤ 128
    → ((k : ℕ) → hi ≤ k → k < 128 → bit bm k ≡ false)
    → Delivers ses bm old 0 (0 + hi) seen was out
    → Delivers ses bm old 0 128 seen was out
widen ses bm old was hi seen out h clear d = record {
  m = d.m;
  above = d.above;
  below = omega (arith, d.below, h);
  run = d.run;
  taken = d.taken;
  done = d.done;
  kept = d.kept;
  ends = elim d.ends [
    | inl (inr b, x, r) ↦ inl (inr b, x, r)
    | inl (inl e, x, r) ↦ elim (dec_lt d.m 128) [
      | yes l ↦ inl (inr (clear d.m (omega (arith, e)) l), x, r)
      | no l ↦ inl (inl (omega (arith, l, d.below, h)), x, r)
    ]
    | inr r ↦ inr r
  ];
}

-- For a window that holds no packet twice, the delivery of ROD meets no null packet and stops at one
-- index: at the end of the window, where no packet has arrived, or at a packet that SES refuses, which it
-- takes out of the window. Up to there every packet has arrived and counts as delivered; SES took each that had not
-- been delivered before, and was asked for these in the order of their PSNs, once each, and for
-- no other packet but the one that it refuses.
pub deliver_in_order_lem :
    (s : Settings) (ses : ℕ → SesAnswer) (w : World)
    → IsWindow w.pdc.rx_bm
    → Distinct w.pdc.rx_bm
    → (out : World) × (deliver_in_order s ses w ≡ some out)
      × Delivers ses w.pdc.rx_bm (delivered w) 0 128 (requests w.events) (delivered w) out
unfolding deliver_in_order
deliver_in_order_lem s ses w window distinct =
    let (r, e, l) = bm_max_lem w.pdc.rx_bm window.valid in rw e (from_last r l)
  where
    from_last :
        (r : Option ℕ)
        → IsLast (bit w.pdc.rx_bm) 0 w.pdc.rx_bm.size r
        → (out : World) × (rod_from s ses (rounds_to (index_or_minus_one r)) 0 w ≡ some out)
          × Delivers ses w.pdc.rx_bm (delivered w) 0 128 (requests w.events) (delivered w) out
    from_last none l =
        let (out, f, d) =
          rod_from-Runs s ses w.pdc.rx_bm (delivered w) window distinct 0 0 w refl (omega arith)
            (λ k q p b x. refl) in
        (
          out,
          f,
          widen ses w.pdc.rx_bm (delivered w) (delivered w) 0 (requests w.events) out (omega arith)
              (λ k p q. l k p (omega (arith, q, window.full_size))) d,
        )
    from_last (some last) l =
        let (out, f, d) =
          rod_from-Runs s ses w.pdc.rx_bm (delivered w) window distinct (suc last) 0 w refl
            (omega (arith, window.full_size, l.1)) (λ k q p b x. refl) in
        (
          out,
          f,
          widen ses w.pdc.rx_bm (delivered w) (delivered w) (suc last) (requests w.events) out
              (omega (arith, window.full_size, l.1))
              (λ k p q. l.3 k (omega (arith, p)) (omega (arith, q, window.full_size))) d,
        )
