-- ===== src/Pds/Tx/Cack.antt =====
-- What a cumulative acknowledgement does to the packets of the transmit window.
pub mod Loop
use native.Mathlib.Decide.{dec_lt, ℕ_discrete}
use mathlib.Core.Bool.{false≢true}
use uet_ref_prov.Base.{
  ℕ, zero, suc, ◌+◌, ◌-◌, ◌*◌, ◌/◌, ◌%◌, ◌^◌, ◌≤◌, ◌<◌, ◌≡◌, refl, sym, ap, ◌∙◌, subst, ◌⊎◌, inl,
  inr, Bool, true, false, not, ◌&&◌, ◌||◌, Option, none, some, List, [], ◌∷◌, ◌++◌, map, ℤ, pos,
  negsuc, ◌==◌, ltb, if◌then◌else◌, Bool-cases, ◌>>=◌, arith, ==_iff, ==_false,
}
use uet_ref_prov.Bitmap.{Bitmap, bm_get}
use uet_ref_prov.Bitmap.Bits.{bit, datum, IsValid}
use uet_ref_prov.Pds.Psn.{add32, psn_offset, update_psn}
use uet_ref_prov.Pds.Psn.Laws.{update_psn_lem}
use uet_ref_prov.Pds.State.{Pkt, Pdc, Memory, Event, unlinked, rx_rsp, World, write}
use uet_ref_prov.Pds.Rx.{found}
use uet_ref_prov.Pds.Rx.Window.{IsWindow, found_lem}
use uet_ref_prov.Pds.Tx.{acknowledge, cack_round, cack_from, cack_by, process_cack}

-- How often `q` is in a list.
abbrev pub count : ℕ → List ℕ → ℕ
count q [] = 0
count q (p ∷ l) = (if p == q then 1 else 0) + count q l

-- 1 for a flag that was clear and is set now.
abbrev pub newly : Bool → Bool → ℕ
newly false true = 1
newly false false = 0
newly true b = 0

abbrev pub acked : World → ℕ → Bool
acked w q = (w.pkts q).tx_pkt_acked

-- The packets of a list leave the transmit list, each with its upcall; the latest event is first.
abbrev pub responses : Memory → List ℕ → List Event
responses pkts [] = []
responses pkts (p ∷ l) = rx_rsp (pkts p).tx_pkt_handle ∷ unlinked p ∷ responses pkts l

-- `q` is the packet of a set bit of the indices from `i` to `hi - 1`.
pub record Sent (bm : Bitmap ℕ) (i hi q : ℕ) : Type 0 where
  pub index : ℕ
  pub above : i ≤ index
  pub below : index < hi
  pub held : bit bm index ≡ true
  pub packet : datum bm index ≡ some q

-- `out` is `w` with the packets at the indices from `i` to `hi - 1` acknowledged: all of them now
-- are, no other packet changes, and SES gets one response for each packet that was not yet
-- acknowledged.
pub record Acks (i hi : ℕ) (w out : World) : Type 0 where
  pub pdc : out.pdc ≡ w.pdc
  pub pkts : (q : ℕ) → out.pkts q ≡ record (w.pkts q) { tx_pkt_acked = acked out q }
  pub all : (q : ℕ) → Sent w.pdc.tx_bm i hi q → acked out q ≡ true
  pub kept : (q : ℕ) → acked w q ≡ true → acked out q ≡ true
  pub only : (q : ℕ) → acked w q ≡ false → acked out q ≡ true → Sent w.pdc.tx_bm i hi q
  pub upcalls : List ℕ
  pub events : out.events ≡ responses w.pkts upcalls ++ w.events
  pub once : (q : ℕ) → count q upcalls ≡ newly (acked w q) (acked out q)

newly_same : (b : Bool) → newly b b ≡ 0
newly_same true = refl
newly_same false = refl

pub Acks-none : (i : ℕ) (w : World) → Acks i i w w
Acks-none i w = record {
  pdc = refl;
  pkts = λ q. refl;
  all = λ q s. absurd (omega (arith, s.above, s.below));
  kept = λ q e. e;
  only = λ q e f. absurd (false≢true (sym e ∙ f));
  upcalls = [];
  events = refl;
  once = λ q. sym (newly_same (acked w q));
}

Sent-before : {bm : Bitmap ℕ} {i hi q : ℕ} → Sent bm (i + 1) hi q → Sent bm i hi q
Sent-before s = record {
  index = s.index;
  above = omega (arith, s.above);
  below = s.below;
  held = s.held;
  packet = s.packet;
}

Sent-after :
    {bm : Bitmap ℕ} {i hi q : ℕ} (s : Sent bm i hi q) → i + 1 ≤ s.index → Sent bm (i + 1) hi q
Sent-after s h = record {
  index = s.index;
  above = h;
  below = s.below;
  held = s.held;
  packet = s.packet;
}

-- Nothing to do at index `i`.
pub Acks-skip :
    (i hi : ℕ) (w out : World)
    → i < hi
    → ((q : ℕ) → bit w.pdc.tx_bm i ≡ true → datum w.pdc.tx_bm i ≡ some q → acked w q ≡ true)
    → Acks (i + 1) hi w out
    → Acks i hi w out
Acks-skip i hi w out h f a = record {
  pdc = a.pdc;
  pkts = a.pkts;
  all = λ q s. elim (ℕ_discrete s.index i) [
    | yes e ↦
        a.kept q
          (f q (ap (bit w.pdc.tx_bm) (sym e) ∙ s.held) (ap (datum w.pdc.tx_bm) (sym e) ∙ s.packet))
    | no ne ↦ a.all q (Sent-after s (omega (arith, s.above)))
  ];
  kept = a.kept;
  only = λ q e g. Sent-before (a.only q e g);
  upcalls = a.upcalls;
  events = a.events;
  once = a.once;
}

pub some-injective : {p q : ℕ} → some p ≡ some q → p ≡ q
some-injective e = ground arith

count-snoc :
    (q p : ℕ) (l : List ℕ) → count q (l ++ (p ∷ [])) ≡ count q l + (if p == q then 1 else 0)
count-snoc q p [] = omega arith
count-snoc q p (x ∷ l) = omega (arith, count-snoc q p l)

responses-snoc :
    (pkts pkts' : Memory) (p : ℕ) (l : List ℕ) (events : List Event)
    → ((q : ℕ) → (pkts' q).tx_pkt_handle ≡ (pkts q).tx_pkt_handle)
    → responses pkts' l ++ (rx_rsp (pkts p).tx_pkt_handle ∷ unlinked p ∷ events)
      ≡ responses pkts (l ++ (p ∷ [])) ++ events
responses-snoc pkts pkts' p [] events h = refl
responses-snoc pkts pkts' p (x ∷ l) events h = rw (h x, responses-snoc pkts pkts' p l events h)

-- The packet at index `i` is acknowledged.
module _ (i hi p : ℕ) (w out : World) (h : i < hi) (arrived : bit w.pdc.tx_bm i ≡ true)
    (held : datum w.pdc.tx_bm i ≡ some p) (fresh : acked w p ≡ false) where
  at_p : (q : ℕ) → p ≡ q → (acknowledge w p).pkts q ≡ record (w.pkts q) { tx_pkt_acked = true }
  at_p q e = rw ((==_iff p q).1 e) (ap (λ r. record (w.pkts r) { tx_pkt_acked = true }) e)

  elsewhere : (q : ℕ) → (p ≡ q → ⊥) → (acknowledge w p).pkts q ≡ w.pkts q
  elsewhere q ne = rw (==_false p q ne)

  pub Acks-cons : Acks (i + 1) hi (acknowledge w p) out → Acks i hi w out
  Acks-cons a = record {
    pdc = a.pdc;
    pkts = λ q. elim (ℕ_discrete p q) [
      | yes e ↦ a.pkts q ∙ ap (λ (k : Pkt). record k { tx_pkt_acked = acked out q }) (at_p q e)
      | no ne ↦
          a.pkts q ∙ ap (λ (k : Pkt). record k { tx_pkt_acked = acked out q }) (elsewhere q ne)
    ];
    all = λ q s. elim (ℕ_discrete s.index i) [
      | yes e ↦ kept_p q (some-injective (sym held ∙ ap (datum w.pdc.tx_bm) (sym e) ∙ s.packet))
      | no ne ↦ a.all q (Sent-after s (omega (arith, s.above)))
    ];
    kept = λ q e. elim (ℕ_discrete p q) [
      | yes f ↦ kept_p q f
      | no ne ↦ a.kept q (ap (λ (k : Pkt). k.tx_pkt_acked) (elsewhere q ne) ∙ e)
    ];
    only = λ q e g. elim (ℕ_discrete p q) [
      | yes f ↦ record {
        index = i;
        above = omega arith;
        below = h;
        held = arrived;
        packet = held ∙ ap (λ k. some k) f;
      }
      | no ne ↦ Sent-before (a.only q (ap (λ (k : Pkt). k.tx_pkt_acked) (elsewhere q ne) ∙ e) g)
    ];
    upcalls = a.upcalls ++ (p ∷ []);
    events =
        a.events ∙ responses-snoc w.pkts (acknowledge w p).pkts p a.upcalls w.events same_handle;
    once = λ q. elim (ℕ_discrete p q) [ yes f ↦ once_p q f | no ne ↦ once_other q ne ];
  }
    where
      kept_p : (q : ℕ) → p ≡ q → acked out q ≡ true
      kept_p q e = a.kept q (ap (λ (k : Pkt). k.tx_pkt_acked) (at_p q e))

      same_handle : (q : ℕ) → ((acknowledge w p).pkts q).tx_pkt_handle ≡ (w.pkts q).tx_pkt_handle
      same_handle q = elim (ℕ_discrete p q) [
        | yes e ↦ ap (λ (k : Pkt). k.tx_pkt_handle) (at_p q e)
        | no ne ↦ ap (λ (k : Pkt). k.tx_pkt_handle) (elsewhere q ne)
      ]

      once_p : (q : ℕ) → p ≡ q → count q (a.upcalls ++ (p ∷ [])) ≡ newly (acked w q) (acked out q)
      once_p q e =
          let none_before : count q a.upcalls ≡ 0 =
            a.once q
            ∙ ap (λ b. newly b (acked out q)) (ap (λ (k : Pkt). k.tx_pkt_acked) (at_p q e)) in
          rw (
            count-snoc q p a.upcalls,
            (==_iff p q).1 e,
            none_before,
            kept_p q e,
            ap (acked w) (sym e) ∙ fresh,
          )

      once_other :
          (q : ℕ) → (p ≡ q → ⊥) → count q (a.upcalls ++ (p ∷ [])) ≡ newly (acked w q) (acked out q)
      once_other q ne =
          let before : count q a.upcalls ≡ newly (acked w q) (acked out q) =
            a.once q
            ∙ ap (λ b. newly b (acked out q)) (ap (λ (k : Pkt). k.tx_pkt_acked) (elsewhere q ne)) in
          rw (count-snoc q p a.upcalls, ==_false p q ne) (omega (arith, before))
