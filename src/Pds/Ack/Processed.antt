-- ===== src/Pds/Ack/Processed.antt =====
-- What an acknowledgement does to the packets and to SES, before the window moves on.
use native.Mathlib.Decide.{ℕ_discrete}
use uet_ref_prov.Base.{
  ℕ, ◌+◌, ◌≡◌, refl, sym, ap, ◌∙◌, ◌⊎◌, inl, inr, true, false, List, [], ◌∷◌, ◌++◌, map, arith,
  ==_iff, ==_false,
}
use uet_ref_prov.Bitmap.Bits.{bit, datum}
use uet_ref_prov.Pds.State.{Pkt, Pdc, Memory, Event, unlinked, World}
use uet_ref_prov.Pds.Tx.Cack.{count, newly, acked, responses, Sent}
use uet_ref_prov.Pds.Tx.Sack.{received}
use uet_ref_prov.Pds.Ack.{Ack, mark_acked}
use uet_ref_prov.Pds.Ack.Taken.{Taken}

-- `out` is `w` with its PDC replaced and with the packets of `explicit`, and those of the `k` first indices of
-- the window, acknowledged: no other packet is newly acknowledged, SES gets one response for each packet
-- that is newly acknowledged and not in `explicit`, and `extra` happens last.
pub record Processed (k : ℕ) (pdc : Pdc) (explicit : List ℕ) (extra : List Event) (w out : World)
    : Type 0 where
  pub now : out.pdc ≡ pdc
  pub pkts :
      (q : ℕ)
      → out.pkts q ≡ record (w.pkts q) { tx_pkt_acked = acked out q; dst_recvd = received out q }
  pub all : (q : ℕ) → Sent w.pdc.tx_bm 0 k q → acked out q ≡ true
  pub kept : (q : ℕ) → acked w q ≡ true → acked out q ≡ true
  pub only :
      (q : ℕ)
      → acked w q ≡ false
      → acked out q ≡ true
      → Sent w.pdc.tx_bm 0 k q ⊎ (count q explicit ≡ 1)
  pub upcalls : List ℕ
  pub once : (q : ℕ) → count q upcalls + count q explicit ≡ newly (acked w q) (acked out q)
  pub events :
      out.events ≡ extra ++ (responses w.pkts upcalls ++ (map unlinked explicit ++ w.events))

-- No packet is acknowledged explicitly.
pub Processed-plain :
    (a : Ack) (k : ℕ) (pdc : Pdc) (w out : World)
    → pdc.tx_bm ≡ w.pdc.tx_bm
    → Taken a k (record w { pdc = pdc }) out
    → Processed k pdc [] [] w out
Processed-plain a k pdc w out same t = record {
  now = t.pdc;
  pkts = λ q.
      t.pkts q
      ∙ ap (λ (x : Pkt). record x { dst_recvd = received out q }) (t.acks.pkts q)
      ∙ ap (λ b. record (w.pkts q) { tx_pkt_acked = b; dst_recvd = received out q })
          (sym (as_mid q));
  all = λ q s.
      as_mid q
      ∙ t.acks.all q (record {
        index = s.index;
        above = s.above;
        below = s.below;
        held = ap (λ bm. bit bm s.index) same ∙ s.held;
        packet = ap (λ bm. datum bm s.index) same ∙ s.packet;
      });
  kept = λ q e. as_mid q ∙ t.acks.kept q e;
  only = λ q e f.
      let s = t.acks.only q e (sym (as_mid q) ∙ f) in
      inl (record {
        index = s.index;
        above = s.above;
        below = s.below;
        held = ap (λ bm. bit bm s.index) (sym same) ∙ s.held;
        packet = ap (λ bm. datum bm s.index) (sym same) ∙ s.packet;
      });
  upcalls = t.acks.upcalls;
  once = λ q. omega (arith, t.acks.once q, ap (newly (acked w q)) (as_mid q));
  events = t.events ∙ t.acks.events;
}
  where
    as_mid : (q : ℕ) → acked out q ≡ acked t.mid q
    as_mid q = ap (λ (x : Pkt). x.tx_pkt_acked) (t.pkts q)

-- Something more happens at the end.
pub Processed-then :
    (k : ℕ) (pdc : Pdc) (explicit : List ℕ) (extra : List Event) (w out : World)
    → Processed k pdc explicit [] w out
    → Processed k pdc explicit extra w (record out { events = extra ++ out.events })
Processed-then k pdc explicit extra w out r = record {
  now = r.now;
  pkts = r.pkts;
  all = r.all;
  kept = r.kept;
  only = r.only;
  upcalls = r.upcalls;
  once = r.once;
  events = ap (λ (l : List Event). extra ++ l) r.events;
}

-- The PDC changes.
pub Processed-pdc :
    (k : ℕ) (pdc : Pdc) (f : Pdc → Pdc) (explicit : List ℕ) (extra : List Event) (w out : World)
    → Processed k pdc explicit extra w out
    → Processed k (f pdc) explicit extra w (record out { pdc = f out.pdc })
Processed-pdc k pdc f explicit extra w out r = record {
  now = ap f r.now;
  pkts = r.pkts;
  all = r.all;
  kept = r.kept;
  only = r.only;
  upcalls = r.upcalls;
  once = r.once;
  events = r.events;
}

responses_same :
    (pkts pkts' : Memory) (l : List ℕ)
    → ((q : ℕ) → (pkts' q).tx_pkt_handle ≡ (pkts q).tx_pkt_handle)
    → responses pkts' l ≡ responses pkts l
responses_same pkts pkts' [] h = refl
responses_same pkts pkts' (x ∷ l) h = rw (h x, responses_same pkts pkts' l h)

-- Packet `p` is acknowledged explicitly, for the first time.
module _ (k p : ℕ) (pdc : Pdc) (w out : World) (fresh : acked w p ≡ false) where
  at_p : (q : ℕ) → p ≡ q → (mark_acked w p).pkts q ≡ record (w.pkts q) { tx_pkt_acked = true }
  at_p q e = rw ((==_iff p q).1 e) (ap (λ r. record (w.pkts r) { tx_pkt_acked = true }) e)

  elsewhere : (q : ℕ) → (p ≡ q → ⊥) → (mark_acked w p).pkts q ≡ w.pkts q
  elsewhere q ne = rw (==_false p q ne)

  acked_p : (q : ℕ) → p ≡ q → acked (mark_acked w p) q ≡ true
  acked_p q e = ap (λ (x : Pkt). x.tx_pkt_acked) (at_p q e)

  acked_other : (q : ℕ) → (p ≡ q → ⊥) → acked (mark_acked w p) q ≡ acked w q
  acked_other q ne = ap (λ (x : Pkt). x.tx_pkt_acked) (elsewhere q ne)

  once_in : (q : ℕ) → p ≡ q → count q (p ∷ []) ≡ 1
  once_in q e = rw ((==_iff p q).1 e) refl

  not_in : (q : ℕ) → (p ≡ q → ⊥) → count q (p ∷ []) ≡ 0
  not_in q ne = rw (==_false p q ne) refl

  pub Processed-mark :
      Processed k pdc [] [] (mark_acked w p) out → Processed k pdc (p ∷ []) [] w out
  Processed-mark r = record {
    now = r.now;
    pkts = λ q. elim (ℕ_discrete p q) [
      | yes e ↦
          r.pkts q
          ∙ ap (λ (x : Pkt). record x { tx_pkt_acked = acked out q; dst_recvd = received out q })
              (at_p q e)
      | no ne ↦
          r.pkts q
          ∙ ap (λ (x : Pkt). record x { tx_pkt_acked = acked out q; dst_recvd = received out q })
              (elsewhere q ne)
    ];
    all = r.all;
    kept = λ q e. elim (ℕ_discrete p q) [
      | yes f ↦ r.kept q (acked_p q f)
      | no ne ↦ r.kept q (acked_other q ne ∙ e)
    ];
    only = λ q e f. elim (ℕ_discrete p q) [
      | yes g ↦ inr (once_in q g)
      | no ne ↦ elim (r.only q (acked_other q ne ∙ e) f) [
        | inl s ↦ inl s
        | inr z ↦ absurd (omega (arith, z))
      ]
    ];
    upcalls = r.upcalls;
    once = λ q. elim (ℕ_discrete p q) [
      | yes e ↦ once_p q e
      | no ne ↦
          omega (arith, r.once q, not_in q ne, ap (λ b. newly b (acked out q)) (acked_other q ne))
    ];
    events =
        r.events
        ∙ ap (λ (l : List Event). l ++ (unlinked p ∷ w.events))
            (responses_same w.pkts (mark_acked w p).pkts r.upcalls same_handle);
  }
    where
      same_handle : (q : ℕ) → ((mark_acked w p).pkts q).tx_pkt_handle ≡ (w.pkts q).tx_pkt_handle
      same_handle q = elim (ℕ_discrete p q) [
        | yes e ↦ ap (λ (x : Pkt). x.tx_pkt_handle) (at_p q e)
        | no ne ↦ ap (λ (x : Pkt). x.tx_pkt_handle) (elsewhere q ne)
      ]

      once_p :
          (q : ℕ) → p ≡ q → count q r.upcalls + count q (p ∷ []) ≡ newly (acked w q) (acked out q)
      once_p q e =
          let before : newly (acked w q) (acked out q) ≡ 1 =
            ap (λ b. newly b (acked out q)) (ap (acked w) (sym e) ∙ fresh)
            ∙ ap (newly false) (r.kept q (acked_p q e)) in
          let now : newly (acked (mark_acked w p) q) (acked out q) ≡ 0 =
            ap (λ b. newly b (acked out q)) (acked_p q e) in
          omega (arith, r.once q, once_in q e, before, now)
