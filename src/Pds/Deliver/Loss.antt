-- ===== src/Pds/Deliver/Loss.antt =====
-- A packet of ROD that SES refuses after the cumulative acknowledgement has gone past it.
use native.Mathlib.Decide.{dec_lt, ℕ_discrete}
use mathlib.Core.Bool.{false≢true}
use uet_ref_prov.Base.{
  ℕ, zero, suc, ◌≤◌, ◌≡◌, ◌≢◌, refl, sym, ap, ◌∙◌, subst, Bool, true, false, Option, none, some, ℤ,
  pos, if◌then◌else◌, arith, ==_false,
}
use uet_ref_prov.Bitmap.{Bitmap, bm_unset}
use uet_ref_prov.Bitmap.Bits.{bit, datum}
use uet_ref_prov.Bitmap.Search.{IsLast, index_or_minus_one, bm_max_lem}
use uet_ref_prov.Pds.Psn.{add32, sub32}
use uet_ref_prov.Pds.State.{Pdc, Memory, freed, World, write}
use uet_ref_prov.Pds.Rx.{rounds_to}
use uet_ref_prov.Pds.Rx.Window.{IsWindow, consumed}
use uet_ref_prov.Pds.Deliver.{SesAnswer, Settings, note, unset, rod_from, deliver_in_order}
use uet_ref_prov.Pds.Deliver.Upcall.{accepts, Called, Counts, upcall_lem}
use uet_ref_prov.Pds.Deliver.Order.{Distinct, delivered}
use uet_ref_prov.Pds.Deliver.Rod.{mark, marked_other, after_call}

consumed_lem :
    (bm : Bitmap ℕ) (pkts : Memory) (max_clear k x : ℕ)
    → bit bm k ≡ true
    → datum bm k ≡ some x
    → (pkts x).needs_clear ≡ false
    → consumed bm pkts max_clear k ≡ true
consumed_lem bm pkts max_clear k x b e nc = ground arith

module _ (s : Settings) (ses : ℕ → SesAnswer) (w : World) (p q : ℕ) (window : IsWindow w.pdc.rx_bm)
    (distinct : Distinct w.pdc.rx_bm) (b0 : bit w.pdc.rx_bm 0 ≡ true)
    (b1 : bit w.pdc.rx_bm 1 ≡ true) (e0 : datum w.pdc.rx_bm 0 ≡ some p)
    (e1 : datum w.pdc.rx_bm 1 ≡ some q) (fresh0 : delivered w p ≡ false)
    (fresh1 : delivered w q ≡ false) (ok : accepts (ses p) ≡ true) (plain : (ses p).gtd_del ≡ false)
    (bad : accepts (ses q) ≡ false) (no_clear : (w.pkts q).needs_clear ≡ false) where
  other : p ≢ q
  other f = absurd (omega (arith, distinct 0 1 q b0 b1 (e0 ∙ ap (λ (x : ℕ). some x) f) e1))

  both_count : (out : World) (c : Counts w p (ses p).gtd_del out) → 2 ≤ c.m
  both_count out c = elim (dec_lt c.m 2) [
    | no h ↦ omega (arith, h)
    | yes h ↦ elim (ℕ_discrete c.m 0) [
      | yes z ↦ absurd (
          false≢true (
            sym (
              subst (λ x. consumed w.pdc.rx_bm pkts c.max_clear x ≡ false) z
                (c.run.stop (omega (arith, z))))
            ∙ consumed_lem w.pdc.rx_bm pkts c.max_clear 0 p b0 e0 clear_p))
      | no nz ↦ absurd (
          false≢true (
            sym (
              subst (λ x. consumed w.pdc.rx_bm pkts c.max_clear x ≡ false) {x = c.m} {y = 1}
                (omega (arith, h, nz)) (c.run.stop (omega (arith, h))))
            ∙ consumed_lem w.pdc.rx_bm pkts c.max_clear 1 q b1 e1 clear_q))
    ]
  ]
    where
      pkts : Memory
      pkts = write w.pkts p (record (w.pkts p) { needs_clear = (ses p).gtd_del })

      clear_p : (pkts p).needs_clear ≡ false
      clear_p = ground (arith, plain)

      clear_q : (pkts q).needs_clear ≡ false
      clear_q =
          ap
            (λ (b : Bool).
              (if b
                then record (w.pkts p) { needs_clear = (ses p).gtd_del }
                else w.pkts q).needs_clear)
            (==_false p q other)
          ∙ no_clear

  -- The rounds at the two indices.
  two_rounds :
      (n : ℕ)
      → suc (suc n) ≤ 128
      → (out : World) × (m : ℕ) × (rod_from s ses (suc (suc n)) 0 w ≡ some out)
        × (2 ≤ m)
        × (m ≤ 128)
        × (out.pdc.cack_psn ≡ sub32 (add32 w.pdc.rx_bm_base_psn m) 1)
        × (out.pdc.rx_bm ≡ bm_unset w.pdc.rx_bm (pos 1))
  two_rounds n h =
      let (mid, rc, call, c) = upcall_lem s ses w p window in
      let (end, rc', call', c') =
        upcall_lem s ses (mark mid p) q (subst IsWindow (sym c.rx_bm) window) in
      let counts = c.counts ok in
      (
        note (unset end (pos 1)) (freed q),
        counts.m,
        after_call s ses w.pdc.rx_bm (delivered w) window distinct (suc n) 0 p w refl
              (omega (arith, h)) b0 e0 fresh0 fresh0 mid rc call c
            ∙ ap
                (λ (x : Bool).
                  if x
                  then rod_from s ses (suc n) 1 (mark mid p)
                  else some (note (unset mid (pos 0)) (freed p)))
                (c.code ∙ ok)
            ∙ after_call s ses w.pdc.rx_bm (delivered w) window distinct n 1 q (mark mid p) c.rx_bm
                (omega (arith, h)) b1 e1 (still mid c) fresh1 end rc' call' c'
            ∙ ap
                (λ (x : Bool).
                  if x
                  then rod_from s ses n 2 (mark end q)
                  else some (note (unset end (pos 1)) (freed q)))
                (c'.code ∙ bad),
        both_count mid counts,
        counts.run.below,
        ap (λ (x : Pdc). x.cack_psn) (c'.refused bad) ∙ counts.cack_psn,
        ap (λ (x : Bitmap ℕ). bm_unset x (pos 1))
            (ap (λ (x : Pdc). x.rx_bm) (c'.refused bad) ∙ c.rx_bm),
      )
    where
      still : {rc : ℤ} (mid : World) → Called ses p w mid rc → delivered (mark mid p) q ≡ false
      still mid c = marked_other mid p q other ∙ c.reordered q ∙ fresh1

  -- Where the two packets at the base of the window have arrived and neither is delivered, SES takes the first,
  -- without a guarantee, and refuses the second, which waits for no clear, the second leaves the
  -- window, though the cumulative acknowledgement is at its PSN, one past the base, or past it within
  -- the window.
  pub refused_but_acknowledged :
      (out : World) × (m : ℕ) × (deliver_in_order s ses w ≡ some out)
      × (2 ≤ m)
      × (m ≤ 128)
      × (out.pdc.cack_psn ≡ sub32 (add32 w.pdc.rx_bm_base_psn m) 1)
      × (out.pdc.rx_bm ≡ bm_unset w.pdc.rx_bm (pos 1))
  unfolding deliver_in_order
  refused_but_acknowledged =
      let (r, e, l) = bm_max_lem w.pdc.rx_bm window.valid in rw e (from_last r l)
    where
      from_last :
          (r : Option ℕ)
          → IsLast (bit w.pdc.rx_bm) 0 w.pdc.rx_bm.size r
          → (out : World) × (m : ℕ) × (rod_from s ses (rounds_to (index_or_minus_one r)) 0 w
              ≡ some out)
            × (2 ≤ m)
            × (m ≤ 128)
            × (out.pdc.cack_psn ≡ sub32 (add32 w.pdc.rx_bm_base_psn m) 1)
            × (out.pdc.rx_bm ≡ bm_unset w.pdc.rx_bm (pos 1))
      from_last none l =
          absurd (false≢true (sym (l 1 (omega arith) (omega (arith, window.full_size))) ∙ b1))
      from_last (some zero) l =
          absurd (false≢true (sym (l.3 1 (omega arith) (omega (arith, window.full_size))) ∙ b1))
      from_last (some (suc n)) l = two_rounds n (omega (arith, l.1, window.full_size))
