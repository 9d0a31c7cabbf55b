-- ===== src/Pds/Deliver/Order.antt =====
-- The order in which the packets of ROD reach SES.
use native.Mathlib.Decide.{ℕ_discrete}
use uet_ref_prov.Base.{
  ℕ, zero, suc, ◌+◌, ◌-◌, ◌≤◌, ◌<◌, ◌≡◌, sym, ap, ◌∙◌, subst, ◌⊎◌, inl, inr, Bool, true, false,
  Option, none, some, List, ◌∷◌, pos, if◌then◌else◌, arith,
}
use uet_ref_prov.Bitmap.{Bitmap, bm_unset}
use uet_ref_prov.Bitmap.Bits.{bit, datum}
use uet_ref_prov.Pds.State.{World}
use uet_ref_prov.Pds.Deliver.{SesAnswer}
use uet_ref_prov.Pds.Deliver.Upcall.{requests, accepts}

-- The packets at the `k` indices from `i` on that were not delivered before, in the order of their
-- indices, on top of `seen`.
abbrev pub push : (ℕ → Bool) → Option ℕ → List ℕ → List ℕ
push old none seen = seen
push old (some p) seen = if old p then seen else p ∷ seen

unfoldable pub pending : Bitmap ℕ → (ℕ → Bool) → ℕ → ℕ → List ℕ → List ℕ
pending bm old zero i seen = seen
pending bm old (suc k) i seen = pending bm old k (i + 1) (push old (datum bm i) seen)

-- No two indices of a window hold the same packet.
abbrev pub Distinct : Bitmap ℕ → Type 0
Distinct bm =
    (j k p : ℕ)
    → bit bm j ≡ true
    → bit bm k ≡ true
    → datum bm j ≡ some p
    → datum bm k ≡ some p
    → j ≡ k

abbrev pub delivered : World → ℕ → Bool
delivered w q = (w.pkts q).reordered

-- Where a delivery from index `i` on ends: at index `m`, where the window ends or no packet has arrived, or
-- at one that SES refuses, which leaves the window.
abbrev pub Ends : (ℕ → SesAnswer) → Bitmap ℕ → (ℕ → Bool) → ℕ → ℕ → ℕ → List ℕ → World → Type 0
Ends ses bm old i hi m seen out =
    (((m ≡ hi) ⊎ (bit bm m ≡ false))
      × (out.pdc.rx_bm ≡ bm)
      × (requests out.events ≡ pending bm old (m - i) i seen))
    ⊎ ((q : ℕ) × (bit bm m ≡ true)
        × (datum bm m ≡ some q)
        × (old q ≡ false)
        × (accepts (ses q) ≡ false)
        × (out.pdc.rx_bm ≡ bm_unset bm (pos m))
        × (requests out.events ≡ (
            if (ses q).buffer
            then q ∷ pending bm old (m - i) i seen
            else pending bm old (m - i) i seen)))

-- Up to that index all packets have arrived and are delivered now, and SES took each that was not
-- delivered before; it was asked for those in the order of their indices, and for no other but the one
-- that it refuses.
pub record Delivers (ses : ℕ → SesAnswer) (bm : Bitmap ℕ) (old : ℕ → Bool) (i hi : ℕ)
    (seen : List ℕ) (was : ℕ → Bool) (out : World) : Type 0 where
  pub m : ℕ
  pub above : i ≤ m
  pub below : m ≤ hi
  pub run : (k : ℕ) → i ≤ k → k < m → bit bm k ≡ true
  pub taken :
      (k q : ℕ) → i ≤ k → k < m → datum bm k ≡ some q → old q ≡ false → accepts (ses q) ≡ true
  pub done : (k q : ℕ) → i ≤ k → k < m → datum bm k ≡ some q → delivered out q ≡ true
  pub kept : (q : ℕ) → was q ≡ true → delivered out q ≡ true
  pub ends : Ends ses bm old i hi m seen out

module _ (ses : ℕ → SesAnswer) (bm : Bitmap ℕ) (old : ℕ → Bool) where
  pending_none : (i : ℕ) (seen : List ℕ) → pending bm old (i - i) i seen ≡ seen
  unfolding pending
  pending_none i seen = ap (λ (x : ℕ). pending bm old x i seen) {x = i - i} {y = 0} (omega arith)

  pending-suc :
      (m i : ℕ) (seen : List ℕ)
      → i + 1 ≤ m
      → pending bm old (m - (i + 1)) (i + 1) (push old (datum bm i) seen)
        ≡ pending bm old (m - i) i seen
  unfolding pending
  pending-suc m i seen h = sym (
      ap (λ (x : ℕ). pending bm old x i seen) {x = m - i} {y = suc (m - (i + 1))}
        (omega (arith, h)))

  -- Nothing is delivered where no packet has arrived, or there is no round left,
  pub Delivers-none :
      (i hi : ℕ) (w : World)
      → i ≤ hi
      → w.pdc.rx_bm ≡ bm
      → (i ≡ hi) ⊎ (bit bm i ≡ false)
      → Delivers ses bm old i hi (requests w.events) (delivered w) w
  Delivers-none i hi w h e stop = record {
    m = i;
    above = omega arith;
    below = h;
    run = λ k p q. absurd (omega (arith, p, q));
    taken = λ k x p q. absurd (omega (arith, p, q));
    done = λ k x p q. absurd (omega (arith, p, q));
    kept = λ q f. f;
    ends = inl (stop, e, sym (pending_none i (requests w.events)));
  }

  -- and one packet more where the one at index `i` is delivered.
  pub Delivers-cons :
      (i hi p : ℕ) (seen : List ℕ) (was was' : ℕ → Bool) (out : World)
      → bit bm i ≡ true
      → datum bm i ≡ some p
      → (old p ≡ false → accepts (ses p) ≡ true)
      → was' p ≡ true
      → ((q : ℕ) → was q ≡ true → was' q ≡ true)
      → Delivers ses bm old (i + 1) hi (push old (datum bm i) seen) was' out
      → Delivers ses bm old i hi seen was out
  Delivers-cons i hi p seen was was' out b e ok now grow d = record {
    m = d.m;
    above = omega (arith, d.above);
    below = d.below;
    run = λ k l h. elim (ℕ_discrete k i) [
      | yes f ↦ ap (bit bm) f ∙ b
      | no ne ↦ d.run k (omega (arith, l, ne)) h
    ];
    taken = λ k q l h f. elim (ℕ_discrete k i) [
      | yes g ↦ subst (λ x. old x ≡ false → accepts (ses x) ≡ true) (same k q g f) ok
      | no ne ↦ d.taken k q (omega (arith, l, ne)) h f
    ];
    done = λ k q l h f. elim (ℕ_discrete k i) [
      | yes g ↦ d.kept q (ap was' (sym (same k q g f)) ∙ now)
      | no ne ↦ d.done k q (omega (arith, l, ne)) h f
    ];
    kept = λ q f. d.kept q (grow q f);
    ends = further d.m d.above d.ends;
  }
    where
      same : (k q : ℕ) → k ≡ i → datum bm k ≡ some q → p ≡ q
      same k q g f = ground (arith, e, sym (ap (datum bm) g) ∙ f)

      further :
          (m : ℕ)
          → i + 1 ≤ m
          → Ends ses bm old (i + 1) hi m (push old (datum bm i) seen) out
          → Ends ses bm old i hi m seen out
      further m h (inl (stop, x, r)) = inl (stop, x, r ∙ pending-suc m i seen h)
      further m h (inr (q, a1, a2, a3, a4, x, r)) = inr (
        q,
        a1,
        a2,
        a3,
        a4,
        x,
        r ∙ ap (λ (l : List ℕ). if (ses q).buffer then q ∷ l else l) (pending-suc m i seen h),
      )
