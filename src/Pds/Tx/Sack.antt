-- ===== src/Pds/Tx/Sack.antt =====
-- What a SACK bitmap does to the packets of the transmit window.
use native.Mathlib.Decide.{dec_lt, ℕ_discrete}
use mathlib.Core.Bool.{false≢true}
use uet_ref_prov.Base.{
  ℕ, zero, suc, ◌+◌, ◌≤◌, ◌<◌, ◌≡◌, refl, sym, ap, ◌∙◌, subst, ◌⊎◌, inl, inr, Bool, true, false,
  Option, some, ℤ, pos, negsuc, ◌==◌, Bool-cases, ◌>>=◌, arith, ==_iff, ==_false, bit_and,
}
use uet_ref_prov.Bitmap.{bit64}
use uet_ref_prov.Bitmap.Bits.{bit, datum, bm_get_beyond}
use uet_ref_prov.Pds.Psn.{add32, psn_offset, psn_after_eq}
use uet_ref_prov.Pds.State.{Pkt, Pdc, World, write}
use uet_ref_prov.Pds.Rx.Window.{IsWindow, found_lem}
use uet_ref_prov.Pds.Tx.{sack_round, sack_from, process_sack_bitmap}
use uet_ref_prov.Pds.Tx.Cack.{some-injective}

-- Bit `i` of the bitmap reports packet `q`: the bit is set, its PSN is not yet acknowledged
-- cumulatively, and it is that of `q` in the window.
pub record Reports (base sacks : ℕ) (pdc : Pdc) (i q : ℕ) : Type 0 where
  pub later : psn_after_eq pdc.max_cack_psn (add32 base i) ≡ false
  pub asked : (bit_and sacks (bit64 i) == 0) ≡ false
  pub index : ℕ
  pub offset : psn_offset (add32 base i) pdc.tx_bm_base_psn ≡ pos index
  pub below : index < 128
  pub held : bit pdc.tx_bm index ≡ true
  pub packet : datum pdc.tx_bm index ≡ some q

abbrev pub received : World → ℕ → Bool
received w q = (w.pkts q).dst_recvd

abbrev mark : World → ℕ → World
mark w p = record w { pkts = write w.pkts p (record (w.pkts p) { dst_recvd = true }) }

-- `out` is `w` after the bits from `lo` to `hi - 1`: exactly the packets that they report are marked as
-- received, beside those that were, and nothing else changes.
pub record Marks (base sacks lo hi : ℕ) (w out : World) : Type 0 where
  pub pdc : out.pdc ≡ w.pdc
  pub events : out.events ≡ w.events
  pub pkts : (q : ℕ) → out.pkts q ≡ record (w.pkts q) { dst_recvd = received out q }
  pub kept : (q : ℕ) → received w q ≡ true → received out q ≡ true
  pub all : (q i : ℕ) → lo ≤ i → i < hi → Reports base sacks w.pdc i q → received out q ≡ true
  pub only :
      (q : ℕ)
      → received w q ≡ false
      → received out q ≡ true
      → (i : ℕ) × (lo ≤ i) × (i < hi) × Reports base sacks w.pdc i q

pos-injective : {m n : ℕ} → pos m ≡ pos n → m ≡ n
pos-injective e = ground arith

module _ (base sacks : ℕ) where
  -- One bit reports one packet.
  same : {pdc : Pdc} {i p q : ℕ} → Reports base sacks pdc i p → Reports base sacks pdc i q → p ≡ q
  same {pdc} r s =
      some-injective
        (sym r.packet ∙ ap (datum pdc.tx_bm) (pos-injective (sym r.offset ∙ s.offset)) ∙ s.packet)

  -- What a round does.
  Round : World → ℕ → Type 0
  Round w i =
      ((sack_round base sacks w i ≡ some w) × ((q : ℕ) → Reports base sacks w.pdc i q → ⊥))
      ⊎ ((p : ℕ) × (sack_round base sacks w i ≡ some (mark w p)) × Reports base sacks w.pdc i p)

  module _ (w : World) (i : ℕ) (window : IsWindow w.pdc.tx_bm)
      (later : psn_after_eq w.pdc.max_cack_psn (add32 base i) ≡ false)
      (asked : (bit_and sacks (bit64 i) == 0) ≡ false) where
    in_window :
        (k : ℕ) → psn_offset (add32 base i) w.pdc.tx_bm_base_psn ≡ pos k → k < 128 → Round w i
    unfolding Round
    in_window k e h = elim (Bool-cases (bit w.pdc.tx_bm k)) [
      | inl b ↦
          let (p, d) = window.held k h b in
          inr (
            p,
            rw (later, asked, e, found_lem w.pdc.tx_bm k window h, b, d),
            record {
              later = later;
              asked = asked;
              index = k;
              offset = e;
              below = h;
              held = b;
              packet = d;
            },
          )
      | inr b ↦ inl (
        rw (later, asked, e, found_lem w.pdc.tx_bm k window h, b),
        λ q r.
            false≢true (sym b ∙ ap (bit w.pdc.tx_bm) (pos-injective (sym e ∙ r.offset)) ∙ r.held),
      )
    ]

    by_offset : (d : ℤ) → psn_offset (add32 base i) w.pdc.tx_bm_base_psn ≡ d → Round w i
    unfolding Round
    by_offset (negsuc n) e =
        inl (rw (later, asked, e), λ q r. absurd (no_index r.index (sym e ∙ r.offset)))
      where
        no_index : (k : ℕ) → negsuc n ≡ pos k → ⊥
        no_index k f = ground arith
    by_offset (pos k) e = elim (dec_lt k 128) [
      | yes h ↦ in_window k e h
      | no h ↦ inl (
        rw (later, asked, e, bm_get_beyond w.pdc.tx_bm k (omega (arith, h, window.full_size))),
        λ q r. h (subst (λ x. x < 128) (pos-injective (sym r.offset ∙ e)) r.below),
      )
    ]

  round_lem : (w : World) (i : ℕ) → IsWindow w.pdc.tx_bm → Round w i
  unfolding Round
  round_lem w i window = elim (Bool-cases (psn_after_eq w.pdc.max_cack_psn (add32 base i))) [
    | inl e ↦ inl (rw e, λ q r. false≢true (sym r.later ∙ e))
    | inr e ↦ elim (Bool-cases (bit_and sacks (bit64 i) == 0)) [
      | inl f ↦ inl (rw (e, f), λ q r. false≢true (sym r.asked ∙ f))
      | inr f ↦ by_offset w i window e f (psn_offset (add32 base i) w.pdc.tx_bm_base_psn) refl
    ]
  ]

  Marks-none : (i : ℕ) (w : World) → Marks base sacks i i w w
  Marks-none i w = record {
    pdc = refl;
    events = refl;
    pkts = λ q. refl;
    kept = λ q e. e;
    all = λ q k h l r. absurd (omega (arith, h, l));
    only = λ q e f. absurd (false≢true (sym e ∙ f));
  }

  -- The bits from `i` on, where bit `i` reports nothing,
  Marks-skip :
      (i hi : ℕ) (w out : World)
      → i < hi
      → ((q : ℕ) → Reports base sacks w.pdc i q → ⊥)
      → Marks base sacks (i + 1) hi w out
      → Marks base sacks i hi w out
  Marks-skip i hi w out h none_here m = record {
    pdc = m.pdc;
    events = m.events;
    pkts = m.pkts;
    kept = m.kept;
    all = λ q k l g r. elim (ℕ_discrete k i) [
      | yes e ↦ absurd (none_here q (subst (λ x. Reports base sacks w.pdc x q) e r))
      | no ne ↦ m.all q k (omega (arith, l, ne)) g r
    ];
    only = λ q e f. let (k, l, g, r) = m.only q e f in (k, omega (arith, l), g, r);
  }

  -- and where it reports `p`.
  module _ (i hi p : ℕ) (w out : World) (h : i < hi) (here : Reports base sacks w.pdc i p) where
    at_p : (q : ℕ) → p ≡ q → (mark w p).pkts q ≡ record (w.pkts q) { dst_recvd = true }
    at_p q e = rw ((==_iff p q).1 e) (ap (λ r. record (w.pkts r) { dst_recvd = true }) e)

    elsewhere : (q : ℕ) → (p ≡ q → ⊥) → (mark w p).pkts q ≡ w.pkts q
    elsewhere q ne = rw (==_false p q ne)

    Marks-cons : Marks base sacks (i + 1) hi (mark w p) out → Marks base sacks i hi w out
    Marks-cons m = record {
      pdc = m.pdc;
      events = m.events;
      pkts = λ q. elim (ℕ_discrete p q) [
        | yes e ↦ m.pkts q ∙ ap (λ (k : Pkt). record k { dst_recvd = received out q }) (at_p q e)
        | no ne ↦
            m.pkts q ∙ ap (λ (k : Pkt). record k { dst_recvd = received out q }) (elsewhere q ne)
      ];
      kept = λ q e. elim (ℕ_discrete p q) [
        | yes f ↦ got_p q f
        | no ne ↦ m.kept q (ap (λ (k : Pkt). k.dst_recvd) (elsewhere q ne) ∙ e)
      ];
      all = λ q k l g r. elim (ℕ_discrete k i) [
        | yes e ↦ got_p q (same here (subst (λ x. Reports base sacks w.pdc x q) e r))
        | no ne ↦ m.all q k (omega (arith, l, ne)) g r
      ];
      only = λ q e f. elim (ℕ_discrete p q) [
        | yes g ↦ (i, omega arith, h, subst (λ x. Reports base sacks w.pdc i x) g here)
        | no ne ↦
            let (k, l, g, r) = m.only q (ap (λ (k : Pkt). k.dst_recvd) (elsewhere q ne) ∙ e) f in
            (k, omega (arith, l), g, r)
      ];
    }
      where
        got_p : (q : ℕ) → p ≡ q → received out q ≡ true
        got_p q e = m.kept q (ap (λ (k : Pkt). k.dst_recvd) (at_p q e))

  sack_from-suc :
      (n i : ℕ) (w : World)
      → sack_from base sacks (suc n) i w
        ≡ (do w' ← sack_round base sacks w i; sack_from base sacks n (i + 1) w')
  unfolding sack_from
  sack_from-suc n i w = refl

  sack_from-Marks :
      (n i : ℕ) (w : World)
      → IsWindow w.pdc.tx_bm
      → (out : World) × (sack_from base sacks n i w ≡ some out) × Marks base sacks i (i + n) w out
  unfolding sack_from Round
  sack_from-Marks zero i w window =
      (w, refl, subst (λ hi. Marks base sacks i hi w w) (omega arith) (Marks-none i w))
  sack_from-Marks (suc n) i w window = elim (round_lem w i window) [
    | inl (e, none_here) ↦
        let (out, r, m) = sack_from-Marks n (i + 1) w window in
        (
          out,
          sack_from-suc n i w
              ∙ ap (λ (o : Option World). o >>= sack_from base sacks n (i + 1)) e
              ∙ r,
          Marks-skip i (i + suc n) w out (omega arith) none_here (widen w out m),
        )
    | inr (p, e, here) ↦
        let (out, r, m) = sack_from-Marks n (i + 1) (mark w p) window in
        (
          out,
          sack_from-suc n i w
              ∙ ap (λ (o : Option World). o >>= sack_from base sacks n (i + 1)) e
              ∙ r,
          Marks-cons i (i + suc n) p w out (omega arith) here (widen (mark w p) out m),
        )
  ]
    where
      widen :
          (w out : World)
          → Marks base sacks (i + 1) (i + 1 + n) w out
          → Marks base sacks (i + 1) (i + suc n) w out
      widen w out = subst (λ hi. Marks base sacks (i + 1) hi w out) (omega arith)

-- On a sound window, uet_pds_process_sack_bitmap meets no null packet, and marks as received exactly
-- the packets that one of the 64 bits reports, beside those that were so marked: the bit is set, and
-- its PSN is past the cumulative acknowledgement and is that of a packet of the window. Nothing else
-- changes.
pub process_sack_bitmap_lem :
    (w : World) (base sacks : ℕ)
    → IsWindow w.pdc.tx_bm
    → (out : World) × (process_sack_bitmap base sacks w ≡ some out) × Marks base sacks 0 64 w out
unfolding process_sack_bitmap
process_sack_bitmap_lem w base sacks window = sack_from-Marks base sacks 64 0 w window
