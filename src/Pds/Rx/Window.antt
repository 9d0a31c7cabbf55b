-- ===== src/Pds/Rx/Window.antt =====
-- The receive window: which PSN is acknowledged cumulatively, and what a shift of the window keeps.
use native.Mathlib.Decide.{dec_lt}
use uet_ref_prov.Base.{
  ℕ, zero, suc, ◌+◌, ◌≤◌, ◌<◌, ◌≡◌, refl, ap, ◌∙◌, subst, inl, inr, Bool, true, false, not, ◌&&◌,
  Option, none, some, pos, if◌then◌else◌, Bool-cases, Option-cases, arith,
}
use uet_ref_prov.Bitmap.{Bitmap, bm_get, bm_max}
use uet_ref_prov.Bitmap.Bits.{bit, datum, IsValid, bm_get_lem}
use uet_ref_prov.Bitmap.Search.{IsLast, index_or_minus_one, bm_max_lem}
use uet_ref_prov.Pds.Psn.{add32, sub32, psn_after, update_psn}
use uet_ref_prov.Pds.State.{Pdc, Memory}
use uet_ref_prov.Pds.Rx.{found, cack_round, cack_from, rounds_to, update_cack}

-- A window bitmap has 128 bits, and each set bit has its packet.
pub record IsWindow (bm : Bitmap ℕ) : Type 0 where
  pub valid : IsValid bm
  pub full_size : bm.size ≡ 128
  pub held : (k : ℕ) → k < 128 → bit bm k ≡ true → (p : ℕ) × (datum bm k ≡ some p)

pub found_lem :
    (bm : Bitmap ℕ) (k : ℕ)
    → IsWindow bm
    → k < 128
    → found (bm_get bm (pos k)) ≡ (if bit bm k then some (datum bm k) else none)
found_lem bm k w h =
    rw (bm_get_lem bm k w.valid (omega (arith, w.full_size))) (choose (bit bm k) (datum bm k))
  where
    choose : (b : Bool) (p : Option ℕ) → found (b, some p) ≡ (if b then some p else none)
    choose true p = refl
    choose false p = refl

-- The packet at index `k` has arrived, and needs no clear that is still to come.
abbrev pub is_done : Memory → ℕ → ℕ → Bool
is_done pkts max_clear p = not ((pkts p).needs_clear && psn_after (pkts p).psn max_clear)

abbrev pub consumed : Bitmap ℕ → Memory → ℕ → ℕ → Bool
consumed bm pkts max_clear k = elim (datum bm k) [
  | none ↦ false
  | some p ↦ bit bm k && is_done pkts max_clear p
]

-- `m` is where the run of consumed packets from index `i` ends, looking no further than `hi`.
pub record RunsTo (bm : Bitmap ℕ) (pkts : Memory) (max_clear i hi m : ℕ) : Type 0 where
  pub above : i ≤ m
  pub below : m ≤ hi
  pub run : (k : ℕ) → i ≤ k → k < m → consumed bm pkts max_clear k ≡ true
  pub stop : m < hi → consumed bm pkts max_clear m ≡ false

module _ (bm : Bitmap ℕ) (pkts : Memory) (max_clear : ℕ) (w : IsWindow bm) where
  not_arrived : (k : ℕ) → bit bm k ≡ false → consumed bm pkts max_clear k ≡ false
  not_arrived k e = ground (arith, Option-cases (datum bm k))

  arrived :
      (k p : ℕ)
      → bit bm k ≡ true
      → datum bm k ≡ some p
      → consumed bm pkts max_clear k ≡ is_done pkts max_clear p
  arrived k p e f = ground arith

  -- One more consumed packet in front.
  RunsTo-cons :
      (i hi m : ℕ)
      → consumed bm pkts max_clear i ≡ true
      → RunsTo bm pkts max_clear (i + 1) hi m
      → RunsTo bm pkts max_clear i hi m
  RunsTo-cons i hi m e r = record {
    above = omega (arith, r.above);
    below = r.below;
    run = λ k p q. ground (arith, r.run k);
    stop = r.stop;
  }

  RunsTo-stop :
      (i hi : ℕ) → i ≤ hi → consumed bm pkts max_clear i ≡ false → RunsTo bm pkts max_clear i hi i
  RunsTo-stop i hi h e = record {
    above = omega arith;
    below = h;
    run = λ k p q. absurd (omega arith);
    stop = λ q. e;
  }

  cack_from-suc :
      (n i : ℕ)
      → cack_from bm pkts max_clear (suc n) i
        ≡ cack_round pkts max_clear i
            (cack_from bm pkts max_clear n (i + 1))
            (found (bm_get bm (pos i)))
  unfolding cack_from
  cack_from-suc n i = refl

  cack_from-RunsTo :
      (n i : ℕ)
      → i + n ≤ 128
      → (m : ℕ) × (cack_from bm pkts max_clear n i ≡ some m) × RunsTo bm pkts max_clear i (i + n) m
  unfolding cack_from
  cack_from-RunsTo zero i h = (
    i,
    refl,
    record {
      above = omega arith;
      below = omega arith;
      run = λ k p q. absurd (omega arith);
      stop = λ q. absurd (omega arith);
    },
  )
  cack_from-RunsTo (suc n) i h = elim (Bool-cases (bit bm i)) [
    | inr e ↦ (
      i,
      rw (cack_from-suc n i, found_lem bm i w (omega arith), e),
      RunsTo-stop i (i + suc n) (omega arith) (not_arrived i e),
    )
    | inl e ↦
        let (p, f) = w.held i (omega arith) e in
        elim (Bool-cases ((pkts p).needs_clear && psn_after (pkts p).psn max_clear)) [
          | inl blocked ↦ (
            i,
            rw (cack_from-suc n i, found_lem bm i w (omega arith), e, f, blocked),
            RunsTo-stop i (i + suc n) (omega arith) (arrived i p e f ∙ ap not blocked),
          )
          | inr clear ↦
              let (m, g, r) = cack_from-RunsTo n (i + 1) (omega arith) in
              (
                m,
                rw (cack_from-suc n i, found_lem bm i w (omega arith), e, f, clear) g,
                RunsTo-cons i (i + suc n) m (arrived i p e f ∙ ap not clear)
                    (subst (λ hi. RunsTo bm pkts max_clear (i + 1) hi m) (omega arith) r),
              )
        ]
  ]

  RunsTo-widen :
      (hi m : ℕ)
      → hi ≤ 128
      → ((k : ℕ) → hi ≤ k → k < 128 → bit bm k ≡ false)
      → RunsTo bm pkts max_clear 0 (0 + hi) m
      → RunsTo bm pkts max_clear 0 128 m
  RunsTo-widen hi m h clear r = record {
    above = r.above;
    below = omega (arith, r.below);
    run = r.run;
    stop = λ q. elim (dec_lt m hi) [
      | yes p ↦ r.stop (omega arith)
      | no p ↦ not_arrived m (clear m (omega arith) q)
    ];
  }

  -- The loop bound by `bm_max` finds the run of the whole window.
  cack_run :
      (m : ℕ) × (cack_from bm pkts max_clear (rounds_to (bm_max bm)) 0 ≡ some m)
      × RunsTo bm pkts max_clear 0 128 m
  cack_run = let (r, e, l) = bm_max_lem bm w.valid in rw e (from_last r l)
    where
      from_last :
          (r : Option ℕ)
          → IsLast (bit bm) 0 bm.size r
          → (m : ℕ) × (cack_from bm pkts max_clear (rounds_to (index_or_minus_one r)) 0 ≡ some m)
            × RunsTo bm pkts max_clear 0 128 m
      from_last none l =
          let (m, e, s) = cack_from-RunsTo 0 0 (omega arith) in
          (m, e, RunsTo-widen 0 m (omega arith) (λ k p q. l k p (omega (arith, w.full_size))) s)
      from_last (some last) l =
          let (m, e, s) = cack_from-RunsTo (suc last) 0 (omega (arith, w.full_size, l.1)) in
          (
            m,
            e,
            RunsTo-widen (suc last) m (omega (arith, w.full_size, l.1))
                (λ k p q. l.3 k (omega arith) (omega (arith, w.full_size))) s,
          )

-- `uet_pds_update_cack` meets no null packet, and the PSN that it acknowledges is the last of the
-- run of consumed packets that starts at the base of the window: every packet of the run has
-- arrived and waits for no clear, and the one after the run, where it lies in the window, has not
-- arrived or waits for one.
pub update_cack_lem :
    (pkts : Memory) (pdc : Pdc) (pds_clear_psn : ℕ)
    → IsWindow pdc.rx_bm
    → (m : ℕ) × (update_cack pkts pdc pds_clear_psn
        ≡ some (record pdc {
          max_clear_psn = update_psn pdc.max_clear_psn pds_clear_psn;
          cack_psn = sub32 (add32 pdc.rx_bm_base_psn m) 1;
        }))
      × RunsTo pdc.rx_bm pkts (update_psn pdc.max_clear_psn pds_clear_psn) 0 128 m
unfolding update_cack
update_cack_lem pkts pdc pds_clear_psn w =
    let (m, e, r) = cack_run pdc.rx_bm pkts (update_psn pdc.max_clear_psn pds_clear_psn) w in
    (m, rw e, r)
