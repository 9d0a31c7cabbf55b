-- ===== src/Pds/Deliver/Upcall.antt =====
-- One upcall to SES for a received packet: what it leaves alone, and what SES has then seen.
use mathlib.Core.Bool.{false≢true}
use uet_ref_prov.Base.{
  is_zero, ℕ, ◌≡◌, refl, sym, ap, ◌∙◌, Bool, true, false, not, ◌&&◌, ◌||◌, some, List, [], ◌∷◌, ℤ,
  pos, if◌then◌else◌, Bool-cases, inl, inr, arith,
}
use uet_ref_prov.Pds.Psn.{add32, sub32, update_psn}
use uet_ref_prov.Pds.State.{Pkt, Pdc, Memory, Event, rx_req, nack_sent, World, write}
use uet_ref_prov.Pds.Rx.{einval, update_sack_base, should_sack}
use uet_ref_prov.Pds.Rx.Window.{IsWindow, RunsTo, update_cack_lem}
use uet_ref_prov.Pds.Deliver.{
  SesAnswer, Settings, enomem, note, tx_ack_pkt, counted_in, ack_if_due, ses_taken,
  upcall_ses_rx_req,
}

-- The packets that SES was asked to take, the latest first.
unfoldable pub requests : List Event → List ℕ
requests [] = []
requests (rx_req p ∷ l) = p ∷ requests l
requests (e ∷ l) = requests l

abbrev pub accepts : SesAnswer → Bool
accepts a = a.buffer && is_zero a.code && not a.nack

-- `out` is `w` with the same window, the same requests, no packet delivered in order or back, and the
-- cumulative acknowledgement at `cack`.
pub record Same (cack : ℕ) (w out : World) : Type 0 where
  pub rx_bm : out.pdc.rx_bm ≡ w.pdc.rx_bm
  pub reordered : (q : ℕ) → (out.pkts q).reordered ≡ (w.pkts q).reordered
  pub seen : requests out.events ≡ requests w.events
  pub cack_psn : out.pdc.cack_psn ≡ cack

update_sack_base-rx_bm :
    (pdc : Pdc) (psn : ℕ) (trigger : Bool) → (update_sack_base pdc psn trigger).rx_bm ≡ pdc.rx_bm
unfolding update_sack_base
update_sack_base-rx_bm pdc psn trigger = ground arith

update_sack_base-cack_psn :
    (pdc : Pdc) (psn : ℕ) (trigger : Bool)
    → (update_sack_base pdc psn trigger).cack_psn ≡ pdc.cack_psn
unfolding update_sack_base
update_sack_base-cack_psn pdc psn trigger = ground arith

-- A write of other fields of packet `p`.
written :
    (pkts : Memory) (p : ℕ) (k : Pkt)
    → k.reordered ≡ (pkts p).reordered
    → (q : ℕ) → (write pkts p k q).reordered ≡ (pkts q).reordered
written pkts p k e q = ground (arith, ap (λ (x : ℕ). (pkts x).reordered) {x = p} {y = q})

tx_ack_pkt-Same : (s : Settings) (w : World) (p : ℕ) → Same w.pdc.cack_psn w (tx_ack_pkt s w p)
unfolding tx_ack_pkt requests
tx_ack_pkt-Same s w p = record {
  rx_bm = elim (Bool-cases (s.is_cc && not s.per_pkt_ack_enabled)) [
    | inl e ↦ rw e (update_sack_base-rx_bm w.pdc (w.pkts p).psn true)
    | inr e ↦ rw e refl
  ];
  reordered = written w.pkts p _ refl;
  seen = refl;
  cack_psn = elim (Bool-cases (s.is_cc && not s.per_pkt_ack_enabled)) [
    | inl e ↦ rw e (update_sack_base-cack_psn w.pdc (w.pkts p).psn true)
    | inr e ↦ rw e refl
  ];
}

Same-trans : {c d : ℕ} {u v w : World} → Same c u v → Same d v w → Same d u w
Same-trans a b = record {
  rx_bm = b.rx_bm ∙ a.rx_bm;
  reordered = λ q. b.reordered q ∙ a.reordered q;
  seen = b.seen ∙ a.seen;
  cack_psn = b.cack_psn;
}

ack_if_due-Same : (s : Settings) (w : World) (p : ℕ) → Same w.pdc.cack_psn w (ack_if_due s w p)
ack_if_due-Same s w p =
    elim (Bool-cases (
      should_sack s.ack_gen_trigger w.pdc ((w.pkts p).asks_ar || (w.pkts p).is_syn_pkt)
        (w.pkts p).needs_clear)) [
          | inr e ↦
              rw e (record { rx_bm = refl; reordered = λ q. refl; seen = refl; cack_psn = refl })
          | inl e ↦
              let a = tx_ack_pkt-Same s w p in
              rw e (record {
                rx_bm = a.rx_bm;
                reordered = a.reordered;
                seen = a.seen;
                cack_psn = a.cack_psn;
              })
        ]

-- The cumulative acknowledgement after packet `p` of `w`: it ends the run of consumed packets.
pub record Counts (w : World) (p : ℕ) (gtd_del : Bool) (out : World) : Type 0 where
  pub m : ℕ
  pub max_clear : ℕ
  pub cack_psn : out.pdc.cack_psn ≡ sub32 (add32 w.pdc.rx_bm_base_psn m) 1
  pub run :
      RunsTo w.pdc.rx_bm
        (write w.pkts p (record (w.pkts p) { needs_clear = gtd_del }))
        max_clear
        0
        128
        m

ses_taken-Same :
    (s : Settings) (w : World) (p : ℕ) (gtd_del : Bool)
    → IsWindow w.pdc.rx_bm
    → (out : World) × (c : ℕ) × (ses_taken s w p gtd_del ≡ some out)
      × Same c w out
      × Counts w p gtd_del out
unfolding ses_taken
ses_taken-Same s w p gtd_del window =
    let pkts : Memory = write w.pkts p (record (w.pkts p) { needs_clear = gtd_del }) in
    let counted_pdc = counted_in s w.pdc (w.pkts p) in
    let (m, e, r) = update_cack_lem pkts counted_pdc (w.pkts p).pds_clear_psn window in
    let max_clear = update_psn counted_pdc.max_clear_psn (w.pkts p).pds_clear_psn in
    let cack = sub32 (add32 counted_pdc.rx_bm_base_psn m) 1 in
    let acked : Pdc = record counted_pdc { max_clear_psn = max_clear; cack_psn = cack } in
    let mid : World = record w { pdc = update_sack_base acked (w.pkts p).psn false; pkts = pkts } in
    let at_mid : Same cack w mid = record {
      rx_bm = update_sack_base-rx_bm acked (w.pkts p).psn false;
      reordered = written w.pkts p (record (w.pkts p) { needs_clear = gtd_del }) refl;
      seen = refl;
      cack_psn = update_sack_base-cack_psn acked (w.pkts p).psn false;
    } in
    let at_out = ack_if_due-Same s mid p in
    (
      ack_if_due s mid p,
      mid.pdc.cack_psn,
      rw e refl,
      Same-trans at_mid at_out,
      record {
        m = m;
        max_clear = max_clear;
        cack_psn = at_out.cack_psn ∙ at_mid.cack_psn;
        run = r;
      },
    )

-- After an upcall for packet `p` with code `rc`, the window is what it was, SES was asked for `p` if there
-- was a buffer for its response, and the code is 0 exactly if SES has taken it.
pub record Called (ses : ℕ → SesAnswer) (p : ℕ) (w out : World) (rc : ℤ) : Type 0 where
  pub rx_bm : out.pdc.rx_bm ≡ w.pdc.rx_bm
  pub reordered : (q : ℕ) → (out.pkts q).reordered ≡ (w.pkts q).reordered
  pub seen :
      requests out.events ≡ (if (ses p).buffer then p ∷ requests w.events else requests w.events)
  pub code : is_zero rc ≡ accepts (ses p)
  pub refused : accepts (ses p) ≡ false → out.pdc ≡ w.pdc
  pub counts : accepts (ses p) ≡ true → Counts w p (ses p).gtd_del out

pub upcall_lem :
    (s : Settings) (ses : ℕ → SesAnswer) (w : World) (p : ℕ)
    → IsWindow w.pdc.rx_bm
    → (out : World) × (rc : ℤ) × (upcall_ses_rx_req s ses w p ≡ some (out, rc))
      × Called ses p w out rc
unfolding upcall_ses_rx_req requests
upcall_lem s ses w p window = elim (Bool-cases (ses p).buffer) [
  | inr e ↦ (
    note w (nack_sent p),
    enomem,
    rw e refl,
    record {
      rx_bm = refl;
      reordered = λ q. refl;
      seen = rw e refl;
      code = rw e refl;
      refused = λ x. refl;
      counts = λ x. absurd (false≢true (sym (rw e refl) ∙ x));
    },
  )
  | inl e ↦ elim (Bool-cases (is_zero (ses p).code)) [
    | inr f ↦ (
      note (note w (rx_req p)) (nack_sent p),
      (ses p).code,
      rw (e, f) refl,
      record {
        rx_bm = refl;
        reordered = λ q. refl;
        seen = rw e refl;
        code = rw (e, f) refl;
        refused = λ x. refl;
        counts = λ x. absurd (false≢true (sym (rw (e, f) refl) ∙ x));
      },
    )
    | inl f ↦ elim (Bool-cases (ses p).nack) [
      | inl g ↦ (
        note (note w (rx_req p)) (nack_sent p),
        einval,
        rw (e, f, g) refl,
        record {
          rx_bm = refl;
          reordered = λ q. refl;
          seen = rw e refl;
          code = rw (e, f, g) refl;
          refused = λ x. refl;
          counts = λ x. absurd (false≢true (sym (rw (e, f, g) refl) ∙ x));
        },
      )
      | inr g ↦
          let (out, c, r, a, counts) =
            ses_taken-Same s (note w (rx_req p)) p (ses p).gtd_del window in
          (
            out,
            pos 0,
            rw (e, f, g, r) refl,
            record {
              rx_bm = a.rx_bm;
              reordered = a.reordered;
              seen = rw e a.seen;
              code = rw (e, f, g) refl;
              counts = λ x. record {
                m = counts.m;
                max_clear = counts.max_clear;
                cack_psn = counts.cack_psn;
                run = counts.run;
              };
              refused = λ x. absurd (false≢true (sym x ∙ rw (e, f, g) refl));
            },
          )
    ]
  ]
]
