-- ===== src/Pds/Tx/Cack/Loop.antt =====
-- `uet_pds_process_cack` against the packets of the window.
use native.Mathlib.Decide.{dec_lt}
use mathlib.Core.Bool.{false≢true}
use uet_ref_prov.Base.{
  ℕ, zero, suc, ◌+◌, ◌-◌, ◌^◌, ◌≤◌, ◌<◌, ◌≡◌, refl, sym, ap, ◌∙◌, subst, ◌⊎◌, inl, inr, Bool, true,
  false, ◌≢◌, ◌==◌, ==_false, none, some, ℤ, pos, negsuc, ltb, if◌then◌else◌, Bool-cases, ◌>>=◌,
  arith,
}
use uet_ref_prov.Bitmap.{bm_get}
use uet_ref_prov.Bitmap.Bits.{bit, datum}
use uet_ref_prov.Pds.Psn.{add32, psn_offset, update_psn}
use uet_ref_prov.Pds.Psn.Laws.{update_psn_lem}
use uet_ref_prov.Pds.State.{Pkt, Memory, World, write}
use uet_ref_prov.Pds.Rx.{found}
use uet_ref_prov.Pds.Rx.Window.{IsWindow, found_lem}
use uet_ref_prov.Pds.Tx.{acknowledge, cack_round, cack_from, cack_by, process_cack}
use uet_ref_prov.Pds.Tx.Cack.{
  acked, Sent, Sent-before, Sent-after, Acks, Acks-none, Acks-skip, Acks-cons, some-injective,
}

cack_from-suc :
    (n i : ℕ) (w : World)
    → cack_from (suc n) i w
      ≡ (do w' ← cack_round w (found (bm_get w.pdc.tx_bm (pos i))); cack_from n (i + 1) w')
unfolding cack_from
cack_from-suc n i w = refl

-- A packet of the indices from `i` to `hi - 1` that is not acknowledged, and has no handle of SES.
pub record Faulty (i hi : ℕ) (w : World) (q : ℕ) : Type 0 where
  pub sent : Sent w.pdc.tx_bm i hi q
  pub fresh : acked w q ≡ false
  pub null : ((w.pkts q).tx_pkt_handle == 0) ≡ true

-- The loop over `n` indices from `i` on: it faults at such a packet, or acknowledges.
Acked : ℕ → ℕ → World → Type 0
Acked n i w =
    ((q : ℕ) × Faulty i (i + n) w q × (cack_from n i w ≡ none))
    ⊎ ((out : World) × (cack_from n i w ≡ some out) × Acks i (i + n) w out)

-- What holds of a packet that is not yet acknowledged after another was.
pub after_ack :
    (pkts : Memory) (p q : ℕ)
    → (write pkts p (record (pkts p) { tx_pkt_acked = true }) q).tx_pkt_acked ≡ false
    → ((pkts q).tx_pkt_acked ≡ false)
      × ((write pkts p (record (pkts p) { tx_pkt_acked = true }) q) ≡ pkts q)
      × ((p == q) ≡ false)
after_ack pkts p q e = elim (Bool-cases (p == q)) [
  | inl z ↦ absurd (
      false≢true (
        sym e
        ∙ ap
            (λ (b : Bool).
              (if b then record (pkts p) { tx_pkt_acked = true } else pkts q).tx_pkt_acked)
            z))
  | inr z ↦
      let same : (write pkts p (record (pkts p) { tx_pkt_acked = true }) q) ≡ pkts q =
        ap (λ (b : Bool). if b then record (pkts p) { tx_pkt_acked = true } else pkts q) z in
      (sym (ap (λ (k : Pkt). k.tx_pkt_acked) same) ∙ e, same, z)
]

Faulty-before : (i hi q : ℕ) (w : World) → Faulty (i + 1) hi w q → Faulty i hi w q
Faulty-before i hi q w f = record { sent = Sent-before f.sent; fresh = f.fresh; null = f.null }

Faulty-ack : (i hi p q : ℕ) (w : World) → Faulty (i + 1) hi (acknowledge w p) q → Faulty i hi w q
Faulty-ack i hi p q w f =
    let (fresh, same, other) = after_ack w.pkts p q f.fresh in
    record {
      sent = Sent-before f.sent;
      fresh = fresh;
      null = ap (λ (k : Pkt). k.tx_pkt_handle == 0) (sym same) ∙ f.null;
    }

cack_from-Acked : (n i : ℕ) (w : World) → IsWindow w.pdc.tx_bm → i + n ≤ 128 → Acked n i w
unfolding Acked cack_from
cack_from-Acked zero i w window h =
    inr (w, refl, subst (λ hi. Acks i hi w w) (omega arith) (Acks-none i w))
cack_from-Acked (suc n) i w window h = elim (Bool-cases (bit w.pdc.tx_bm i)) [
  | inr e ↦ elim (cack_from-Acked n (i + 1) w window (omega arith)) [
    | inl (q, f, r) ↦ inl (
      q,
      Faulty-before i (i + suc n) q w (farther w q f),
      rw (cack_from-suc n i w, found_lem w.pdc.tx_bm i window (omega arith), e) r,
    )
    | inr (out, r, a) ↦ inr (
      out,
      rw (cack_from-suc n i w, found_lem w.pdc.tx_bm i window (omega arith), e) r,
      Acks-skip i (i + suc n) w out (omega arith) (λ q b d. absurd (false≢true (sym e ∙ b)))
          (widen w out a),
    )
  ]
  | inl e ↦
      let (p, held) = window.held i (omega arith) e in
      elim (Bool-cases (acked w p)) [
        | inl f ↦ elim (cack_from-Acked n (i + 1) w window (omega arith)) [
          | inl (q, g, r) ↦ inl (
            q,
            Faulty-before i (i + suc n) q w (farther w q g),
            rw (cack_from-suc n i w, found_lem w.pdc.tx_bm i window (omega arith), e, held, f) r,
          )
          | inr (out, r, a) ↦ inr (
            out,
            rw (cack_from-suc n i w, found_lem w.pdc.tx_bm i window (omega arith), e, held, f) r,
            Acks-skip i (i + suc n) w out (omega arith)
                (λ q b d. ap (acked w) (some-injective (sym d ∙ held)) ∙ f) (widen w out a),
          )
        ]
        | inr f ↦ elim (Bool-cases ((w.pkts p).tx_pkt_handle == 0)) [
          | inl z ↦ inl (
            p,
            record {
              sent = record {
                index = i;
                above = omega arith;
                below = omega arith;
                held = e;
                packet = held;
              };
              fresh = f;
              null = z;
            },
            rw (cack_from-suc n i w, found_lem w.pdc.tx_bm i window (omega arith), e, held, f, z)
                refl,
          )
          | inr z ↦ elim (cack_from-Acked n (i + 1) (acknowledge w p) window (omega arith)) [
            | inl (q, g, r) ↦ inl (
              q,
              Faulty-ack i (i + suc n) p q w (farther (acknowledge w p) q g),
              rw (cack_from-suc n i w, found_lem w.pdc.tx_bm i window (omega arith), e, held, f, z)
                  r,
            )
            | inr (out, r, a) ↦ inr (
              out,
              rw (cack_from-suc n i w, found_lem w.pdc.tx_bm i window (omega arith), e, held, f, z)
                  r,
              Acks-cons i (i + suc n) p w out (omega arith) e held f
                  (widen (acknowledge w p) out a),
            )
          ]
        ]
      ]
]
  where
    farther : (w : World) (q : ℕ) → Faulty (i + 1) (i + 1 + n) w q → Faulty (i + 1) (i + suc n) w q
    farther w q = subst (λ hi. Faulty (i + 1) hi w q) (omega arith)

    widen : (w out : World) → Acks (i + 1) (i + 1 + n) w out → Acks (i + 1) (i + suc n) w out
    widen w out = subst (λ hi. Acks (i + 1) hi w out) (omega arith)

-- the larger of two distances
abbrev pub later : ℕ → ℕ → ℕ
later a b = if ltb a b then b else a

-- A shift count of `c + 1 - s`, negative where `c + 1` is below `s`.
shift_count_lem :
    (anchor s c : ℕ)
    → anchor < 2 ^ 32
    → s < 2 ^ 30
    → c < 2 ^ 30
    → (psn_offset (add32 (add32 anchor c) 1) (add32 anchor s) ≡ pos (c + 1 - s))
      ⊎ ((k : ℕ) × (psn_offset (add32 (add32 anchor c) 1) (add32 anchor s) ≡ negsuc k)
          × (c + 1 - s ≡ 0))
shift_count_lem anchor s c ha hs hc = elim (dec_lt (c + 1) s) [
  | yes p ↦ inr (s - (c + 1) - 1, ground arith, omega arith)
  | no p ↦ inl (ground arith)
]

-- The loop for such a shift count.
cack_by-Acks :
    (w : World) (d : ℤ) (k : ℕ)
    → IsWindow w.pdc.tx_bm
    → k ≤ 128
    → (d ≡ pos k) ⊎ ((n : ℕ) × (d ≡ negsuc n) × (k ≡ 0))
    → ((q : ℕ) × Faulty 0 k w q × (cack_by w d ≡ none))
      ⊎ ((out : World) × (cack_by w d ≡ some out) × Acks 0 k w out)
unfolding cack_by Acked
cack_by-Acks w d k window h (inl e) = elim (cack_from-Acked k 0 w window (omega arith)) [
  | inl (q, f, r) ↦ inl (q, subst (λ hi. Faulty 0 hi w q) (omega arith) f, ap (cack_by w) e ∙ r)
  | inr (out, r, a) ↦ inr (out, ap (cack_by w) e ∙ r, subst (λ hi. Acks 0 hi w out) (omega arith) a)
]
cack_by-Acks w d k window h (inr (n, e, z)) =
    inr (w, ap (cack_by w) e, subst (λ hi. Acks 0 hi w w) (sym z) (Acks-none 0 w))

abbrev at_later : World → ℕ → ℕ → ℕ → World
at_later w anchor a b = record w {
  pdc = record (w.pdc) { max_cack_psn = add32 anchor (later a b) };
}

process_cack-by :
    (w : World) (anchor a b s : ℕ)
    → anchor < 2 ^ 32
    → a < 2 ^ 30
    → b < 2 ^ 30
    → w.pdc.max_cack_psn ≡ add32 anchor a
    → w.pdc.tx_bm_base_psn ≡ add32 anchor s
    → process_cack (add32 anchor b) w
      ≡ cack_by
          (at_later w anchor a b)
          (psn_offset (add32 (add32 anchor (later a b)) 1) (add32 anchor s))
unfolding process_cack
process_cack-by w anchor a b s hanchor ha hb ea es =
    let after = λ (m : ℕ). record w { pdc = record (w.pdc) { max_cack_psn = m } } in
    let m = later a b in
    let step = λ (k : ℕ). cack_by (after k) (psn_offset (add32 k 1) w.pdc.tx_bm_base_psn) in
    let updated : update_psn w.pdc.max_cack_psn (add32 anchor b) ≡ add32 anchor m =
      ap (λ k. update_psn k (add32 anchor b)) ea
      ∙ update_psn_lem anchor a b hanchor (omega arith) (omega arith) in
    ap step updated
    ∙ ap (λ k. cack_by (after (add32 anchor m)) (psn_offset (add32 (add32 anchor m) 1) k)) es

-- `uet_pds_process_cack` for a CACK PSN at distance `b` past an anchor, where the highest CACK PSN
-- is at `a`, the sound window starts at `s`, and the later of `a` and `b` is not beyond the window:
-- the highest CACK PSN is then the later of the two, and no null packet is met. All packets of the
-- window up to that PSN are acknowledged and no other packet changes; each packet that was not yet
-- acknowledged is unlinked and gets one response. If the later PSN is before the window, nothing
-- is acknowledged. It faults only in the upcall, where the window holds a packet up to that PSN that is not
-- yet acknowledged and has no handle, as a control packet has none.
pub process_cack_lem :
    (w : World) (anchor a b s : ℕ)
    → IsWindow w.pdc.tx_bm
    → anchor < 2 ^ 32
    → a < 2 ^ 30
    → b < 2 ^ 30
    → s < 2 ^ 30
    → w.pdc.max_cack_psn ≡ add32 anchor a
    → w.pdc.tx_bm_base_psn ≡ add32 anchor s
    → later a b + 1 ≤ s + 128
    → ((q : ℕ) × Faulty 0 (later a b + 1 - s) w q × (process_cack (add32 anchor b) w ≡ none))
      ⊎ ((out : World) × (process_cack (add32 anchor b) w ≡ some out)
          × Acks 0
              (later a b + 1 - s)
              (record w { pdc = record (w.pdc) { max_cack_psn = add32 anchor (later a b) } })
              out)
process_cack_lem w anchor a b s window hanchor ha hb hs ea es fits =
    elim (cack_by-Acks (at_later w anchor a b)
      (psn_offset (add32 (add32 anchor (later a b)) 1) (add32 anchor s)) (later a b + 1 - s) window
      (omega arith) (shift_count_lem anchor s (later a b) hanchor hs (bound a b ha hb))) [
        | inl (q, f, r) ↦ inl (
          q,
          record { sent = f.sent; fresh = f.fresh; null = f.null },
          process_cack-by w anchor a b s hanchor ha hb ea es ∙ r,
        )
        | inr (out, r, acks) ↦
            inr (out, process_cack-by w anchor a b s hanchor ha hb ea es ∙ r, acks)
      ]
  where
    bound : (a b : ℕ) → a < 2 ^ 30 → b < 2 ^ 30 → later a b < 2 ^ 30
    bound a b p q = ground arith

-- The loop faults at a packet that is not acknowledged and has no handle.
cack_from-none :
    (n i q : ℕ) (w : World)
    → IsWindow w.pdc.tx_bm
    → i + n ≤ 128
    → Faulty i (i + n) w q
    → cack_from n i w ≡ none
cack_from-none zero i q w window h f = absurd (omega (arith, f.sent.above, f.sent.below))
cack_from-none (suc n) i q w window h f = elim (Bool-cases (bit w.pdc.tx_bm i)) [
  | inr e ↦
      rw (cack_from-suc n i w, found_lem w.pdc.tx_bm i window (omega arith), e)
        (cack_from-none n (i + 1) q w window (omega arith)
          (onward w f (λ z. false≢true (sym e ∙ ap (bit w.pdc.tx_bm) (sym z) ∙ f.sent.held))))
  | inl e ↦
      let (p, held) = window.held i (omega arith) e in
      let at_i : f.sent.index ≡ i → p ≡ q =
        λ z. some-injective (sym held ∙ ap (datum w.pdc.tx_bm) (sym z) ∙ f.sent.packet) in
      elim (Bool-cases (acked w p)) [
        | inl g ↦
            rw (cack_from-suc n i w, found_lem w.pdc.tx_bm i window (omega arith), e, held, g)
              (cack_from-none n (i + 1) q w window (omega arith)
                (onward w f (λ z. false≢true (sym f.fresh ∙ ap (acked w) (sym (at_i z)) ∙ g))))
        | inr g ↦ elim (Bool-cases ((w.pkts p).tx_pkt_handle == 0)) [
          | inl z ↦
              rw (cack_from-suc n i w, found_lem w.pdc.tx_bm i window (omega arith), e, held, g, z)
                refl
          | inr z ↦
              let other : p ≡ q → ⊥ = λ same.
                false≢true (sym z ∙ ap (λ x. (w.pkts x).tx_pkt_handle == 0) same ∙ f.null) in
              let kept : (acknowledge w p).pkts q ≡ w.pkts q = rw (==_false p q other) refl in
              rw (cack_from-suc n i w, found_lem w.pdc.tx_bm i window (omega arith), e, held, g, z)
                (cack_from-none n (i + 1) q (acknowledge w p) window (omega arith) (
                  onward (acknowledge w p)
                    (record {
                      sent = f.sent;
                      fresh = ap (λ (k : Pkt). k.tx_pkt_acked) kept ∙ f.fresh;
                      null = ap (λ (k : Pkt). k.tx_pkt_handle == 0) kept ∙ f.null;
                    })
                    (λ y. other (at_i y))))
        ]
      ]
]
  where
    onward :
        (w : World) (f : Faulty i (i + suc n) w q)
        → (f.sent.index ≡ i → ⊥)
        → Faulty (i + 1) (i + 1 + n) w q
    onward w f ne =
        subst (λ hi. Faulty (i + 1) hi w q) (omega arith)
          (record {
            sent = Sent-after f.sent (omega (arith, f.sent.above, past f.sent.index ne));
            fresh = f.fresh;
            null = f.null;
          })
      where
        past : (x : ℕ) → (x ≡ i → ⊥) → x ≢ i
        past x ne e = ne e

-- So does uet_pds_process_cack.
pub process_cack-none :
    (w : World) (anchor a b s q : ℕ)
    → IsWindow w.pdc.tx_bm
    → anchor < 2 ^ 32
    → a < 2 ^ 30
    → b < 2 ^ 30
    → s < 2 ^ 30
    → w.pdc.max_cack_psn ≡ add32 anchor a
    → w.pdc.tx_bm_base_psn ≡ add32 anchor s
    → later a b + 1 ≤ s + 128
    → Faulty 0 (later a b + 1 - s) w q
    → process_cack (add32 anchor b) w ≡ none
unfolding cack_by
process_cack-none w anchor a b s q window hanchor ha hb hs ea es fits f =
    process_cack-by w anchor a b s hanchor ha hb ea es
    ∙ elim (shift_count_lem anchor s (later a b) hanchor hs (bound a b ha hb)) [
      | inl e ↦
          ap (cack_by (at_later w anchor a b)) e
          ∙ cack_from-none (later a b + 1 - s) 0 q (at_later w anchor a b) window (omega arith) (
              subst (λ hi. Faulty 0 hi (at_later w anchor a b) q) (omega arith)
                (record { sent = f.sent; fresh = f.fresh; null = f.null }))
      | inr (k, e, z) ↦ absurd (omega (arith, z, f.sent.above, f.sent.below))
    ]
  where
    bound : (a b : ℕ) → a < 2 ^ 30 → b < 2 ^ 30 → later a b < 2 ^ 30
    bound a b p q = ground arith
