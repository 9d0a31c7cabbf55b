-- ===== src/Pds/Deliver/Rod.antt =====
-- The loop of uet_pds_process_data_pkt over the packets of ROD.
use native.Mathlib.Decide.{ℕ_discrete}
use mathlib.Core.Bool.{false≢true}
use uet_ref_prov.Base.{
  ℕ, zero, suc, ◌+◌, ◌-◌, ◌≤◌, ◌≡◌, refl, sym, ap, ◌∙◌, subst, inl, inr, Bool, true, false, Option,
  some, List, ◌∷◌, ℤ, pos, if◌then◌else◌, Bool-cases, arith, ==_iff, ==_false,
}
use uet_ref_prov.Bitmap.{Bitmap, bm_get, bm_unset}
use uet_ref_prov.Bitmap.Bits.{bit, datum}
use uet_ref_prov.Pds.State.{freed, World, write}
use uet_ref_prov.Pds.Rx.{found}
use uet_ref_prov.Pds.Rx.Window.{IsWindow, found_lem}
use uet_ref_prov.Pds.Deliver.{
  SesAnswer, Settings, note, unset, upcall_ses_rx_req, rod_after, rod_round, rod_from,
}
use uet_ref_prov.Pds.Deliver.Upcall.{requests, accepts, Called, upcall_lem}
use uet_ref_prov.Pds.Deliver.Order.{
  push, pending, Distinct, delivered, Delivers, Delivers-none, Delivers-cons,
}

abbrev pub mark : World → ℕ → World
mark w p = record w { pkts = write w.pkts p (record (w.pkts p) { reordered = true }) }

marked_p : (w : World) (p : ℕ) → delivered (mark w p) p ≡ true
marked_p w p = rw ((==_iff p p).1 refl, delivered) refl

pub marked_other : (w : World) (p q : ℕ) → (p ≡ q → ⊥) → delivered (mark w p) q ≡ delivered w q
marked_other w p q ne = rw (==_false p q ne, delivered) refl

marked_more : (w : World) (p q : ℕ) → delivered w q ≡ true → delivered (mark w p) q ≡ true
marked_more w p q e = elim (ℕ_discrete p q) [
  | yes f ↦ ap (delivered (mark w p)) (sym f) ∙ marked_p w p
  | no ne ↦ marked_other w p q ne ∙ e
]

module _ (s : Settings) (ses : ℕ → SesAnswer) (bm : Bitmap ℕ) (old : ℕ → Bool)
    (window : IsWindow bm) (distinct : Distinct bm) where
  -- What is delivered among the packets from index `i` on is what was.
  abbrev pub Agrees : ℕ → World → Type 0
  Agrees i w = (k q : ℕ) → i ≤ k → bit bm k ≡ true → datum bm k ≡ some q → delivered w q ≡ old q

  abbrev pub Runs : ℕ → ℕ → World → Type 0
  Runs n i w =
      (out : World) × (rod_from s ses n i w ≡ some out)
      × Delivers ses bm old i (i + n) (requests w.events) (delivered w) out

  rod_from-suc :
      (n i : ℕ) (w : World)
      → rod_from s ses (suc n) i w
        ≡ rod_round s ses (rod_from s ses n (i + 1)) i w (found (bm_get w.pdc.rx_bm (pos i)))
  unfolding rod_from
  rod_from-suc n i w = refl

  module _ (n i p : ℕ) (w : World) (held : w.pdc.rx_bm ≡ bm) (fits : i + suc n ≤ 128)
      (b : bit bm i ≡ true) (e : datum bm i ≡ some p) where
    here :
        rod_from s ses (suc n) i w ≡ rod_round s ses (rod_from s ses n (i + 1)) i w (some (some p))
    here =
        rod_from-suc n i w
        ∙ ap
            (λ (x : Bitmap ℕ).
              rod_round s ses (rod_from s ses n (i + 1)) i w (found (bm_get x (pos i))))
            held
        ∙ rw (found_lem bm i window (omega (arith, fits)), b, e) refl

    on_delivered : delivered w p ≡ true → old p ≡ true → Runs n (i + 1) w → Runs (suc n) i w
    on_delivered now before (out, r, d) = (
      out,
      here
          ∙ ap
              (λ (x : Bool).
                if x
                then rod_from s ses n (i + 1) w
                else rod_after (rod_from s ses n (i + 1)) i p (upcall_ses_rx_req s ses w p))
              now
          ∙ r,
      Delivers-cons ses bm old i (i + suc n) p (requests w.events) (delivered w) (delivered w) out b
          e (λ f. absurd (false≢true (sym f ∙ before))) now (λ q f. f)
          (subst (λ l. Delivers ses bm old (i + 1) (i + suc n) l (delivered w) out) (sym same)
            (subst (λ hi. Delivers ses bm old (i + 1) hi (requests w.events) (delivered w) out)
              (omega arith) d)),
    )
      where
        same : push old (datum bm i) (requests w.events) ≡ requests w.events
        same =
            ap (λ (o : Option ℕ). push old o (requests w.events)) e
            ∙ ap (λ (x : Bool). if x then requests w.events else p ∷ requests w.events) before

    module _ (fresh : delivered w p ≡ false) (before : old p ≡ false) (mid : World) (rc : ℤ)
        (call : upcall_ses_rx_req s ses w p ≡ some (mid, rc)) (c : Called ses p w mid rc) where
      pub after_call :
          rod_from s ses (suc n) i w ≡ rod_after (rod_from s ses n (i + 1)) i p (some (mid, rc))
      after_call =
          here
          ∙ ap
              (λ (x : Bool).
                if x
                then rod_from s ses n (i + 1) w
                else rod_after (rod_from s ses n (i + 1)) i p (upcall_ses_rx_req s ses w p))
              fresh
          ∙ ap (rod_after (rod_from s ses n (i + 1)) i p) call

      on_taken : accepts (ses p) ≡ true → Runs n (i + 1) (mark mid p) → Runs (suc n) i w
      on_taken ok (out, r, d) = (
        out,
        after_call
            ∙ ap
                (λ (x : Bool).
                  if x
                  then rod_from s ses n (i + 1) (mark mid p)
                  else some (note (unset mid (pos i)) (freed p)))
                (c.code ∙ ok)
            ∙ r,
        Delivers-cons ses bm old i (i + suc n) p (requests w.events) (delivered w)
            (delivered (mark mid p)) out b e (λ f. ok) (marked_p mid p)
            (λ q f. marked_more mid p q (c.reordered q ∙ f))
            (subst (λ l. Delivers ses bm old (i + 1) (i + suc n) l (delivered (mark mid p)) out)
              (c.seen
                ∙ ap (λ (x : Bool). if x then p ∷ requests w.events else requests w.events)
                    (has_buffer ok)
                ∙ sym more)
              (subst
                (λ hi.
                  Delivers ses bm old (i + 1) hi (requests mid.events) (delivered (mark mid p)) out)
                (omega arith) d)),
      )
        where
          has_buffer : accepts (ses p) ≡ true → (ses p).buffer ≡ true
          has_buffer f = ground arith

          more : push old (datum bm i) (requests w.events) ≡ p ∷ requests w.events
          more =
              ap (λ (o : Option ℕ). push old o (requests w.events)) e
              ∙ ap (λ (x : Bool). if x then requests w.events else p ∷ requests w.events) before

      on_refused : accepts (ses p) ≡ false → Runs (suc n) i w
      unfolding requests pending
      on_refused bad = (
        note (unset mid (pos i)) (freed p),
        after_call
            ∙ ap
                (λ (x : Bool).
                  if x
                  then rod_from s ses n (i + 1) (mark mid p)
                  else some (note (unset mid (pos i)) (freed p)))
                (c.code ∙ bad),
        record {
          m = i;
          above = omega arith;
          below = omega arith;
          run = λ k l h. absurd (omega (arith, l, h));
          taken = λ k q l h. absurd (omega (arith, l, h));
          done = λ k q l h. absurd (omega (arith, l, h));
          kept = λ q f. c.reordered q ∙ f;
          ends = inr (
            p,
            b,
            e,
            before,
            bad,
            ap (λ (x : Bitmap ℕ). bm_unset x (pos i)) (c.rx_bm ∙ held),
            c.seen
                ∙ ap (λ (l : List ℕ). if (ses p).buffer then p ∷ l else l)
                    (sym (
                      ap (λ (x : ℕ). pending bm old x i (requests w.events)) {x = i - i} {y = 0}
                        (omega arith))),
          );
        },
      )

  pub rod_from-Runs :
      (n i : ℕ) (w : World) → w.pdc.rx_bm ≡ bm → i + n ≤ 128 → Agrees i w → Runs n i w
  unfolding rod_from
  rod_from-Runs zero i w held fits agrees =
      (w, refl, Delivers-none ses bm old i (i + 0) w (omega arith) held (inl (omega arith)))
  rod_from-Runs (suc n) i w held fits agrees = elim (Bool-cases (bit bm i)) [
    | inr b ↦ (
      w,
      rod_from-suc n i w
          ∙ ap
              (λ (x : Bitmap ℕ).
                rod_round s ses (rod_from s ses n (i + 1)) i w (found (bm_get x (pos i))))
              held
          ∙ rw (found_lem bm i window (omega (arith, fits)), b) refl,
      Delivers-none ses bm old i (i + suc n) w (omega arith) held (inr b),
    )
    | inl b ↦
        let (p, e) = window.held i (omega (arith, fits)) b in
        let was : delivered w p ≡ old p = agrees i p (omega arith) b e in
        elim (Bool-cases (delivered w p)) [
          | inl now ↦ on_delivered n i p w held fits b e now (sym was ∙ now) (
              rod_from-Runs n (i + 1) w held (omega (arith, fits))
                (λ k q l. agrees k q (omega (arith, l))))
          | inr fresh ↦
              let (mid, rc, call, c) = upcall_lem s ses w p (subst IsWindow (sym held) window) in
              elim (Bool-cases (accepts (ses p))) [
                | inr bad ↦
                    on_refused n i p w held fits b e fresh (sym was ∙ fresh) mid rc call c bad
                | inl ok ↦ on_taken n i p w held fits b e fresh (sym was ∙ fresh) mid rc call c ok (
                    rod_from-Runs n (i + 1) (mark mid p) (c.rx_bm ∙ held) (omega (arith, fits))
                      (λ k q l a d.
                        marked_other mid p q
                          (λ f. one_index k q l a (e ∙ ap (λ (x : ℕ). some x) f) d b)
                        ∙ c.reordered q
                        ∙ agrees k q (omega (arith, l)) a d))
              ]
        ]
  ]
    where
      one_index :
          (k q : ℕ)
          → i + 1 ≤ k
          → bit bm k ≡ true
          → datum bm i ≡ some q
          → datum bm k ≡ some q
          → bit bm i ≡ true
          → ⊥
      one_index k q l a x y b = omega (arith, l, distinct i k q b a x y)
