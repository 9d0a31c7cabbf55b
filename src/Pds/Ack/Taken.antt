-- ===== src/Pds/Ack/Taken.antt =====
-- The middle of uet_pds_process_ack: the peer's range, the cumulative acknowledgement and the SACK bitmap.
use uet_ref_prov.Base.{
  ℕ, ◌+◌, ◌-◌, ◌<◌, ◌≡◌, refl, sym, ap, ◌∙◌, subst, Bool, true, false, ◌⊎◌, ◌==◌, Option, none,
  some, if◌then◌else◌, Bool-cases, inl, inr, ◌>>=◌, arith,
}
use mathlib.Core.Bool.{false≢true}
use uet_ref_prov.Pds.Rx.Window.{IsWindow}
use uet_ref_prov.Pds.Psn.{add32}
use uet_ref_prov.Pds.State.{Pkt, Pdc, World}
use uet_ref_prov.Pds.Tx.{process_cack, process_sack_bitmap}
use uet_ref_prov.Pds.Tx.Cack.{Sent, acked, Acks}
use uet_ref_prov.Pds.Tx.Cack.Loop.{later, Faulty, process_cack_lem, process_cack-none}
use uet_ref_prov.Pds.Tx.Sack.{Reports, received, Marks, process_sack_bitmap_lem}
use uet_ref_prov.Pds.Ack.{Ack, with_mpr, sack_in, take_in}
use uet_ref_prov.Pds.Ack.Sender.{IsSender, later-IsSender, with_mpr-IsSender, with_mpr_frame}

-- The PDC with the peer's range and the later of the two cumulative acknowledgements.
abbrev pub told : Ack → ℕ → ℕ → ℕ → Pdc → Pdc
told a anchor c b pdc = record (with_mpr a pdc) { max_cack_psn = add32 anchor (later c b) }

-- `mid` is `w` with the packets up to the cumulative acknowledgement acknowledged, and `out` is `mid` with
-- those that the SACK bitmap reports marked as received.
pub record Taken (a : Ack) (k : ℕ) (w out : World) : Type 0 where
  pub mid : World
  pub acks : Acks 0 k w mid
  pub pdc : out.pdc ≡ w.pdc
  pub events : out.events ≡ mid.events
  pub pkts : (q : ℕ) → out.pkts q ≡ record (mid.pkts q) { dst_recvd = received out q }
  pub marks : a.is_cc ≡ true → Marks a.sack_base_psn a.sack_bitmap 0 64 mid out
  pub plain : a.is_cc ≡ false → (q : ℕ) → received out q ≡ received mid q

sack_in-Taken :
    (a : Ack) (k : ℕ) (w mid : World)
    → IsWindow w.pdc.tx_bm
    → Acks 0 k w mid
    → (out : World) × (sack_in a mid ≡ some out) × Taken a k w out
sack_in-Taken a k w mid window acks = elim (Bool-cases a.is_cc) [
  | inl cc ↦
      let (out, r, m) =
        process_sack_bitmap_lem mid a.sack_base_psn a.sack_bitmap
          (subst (λ (p : Pdc). IsWindow p.tx_bm) (sym acks.pdc) window) in
      (
        out,
        ap
              (λ (x : Bool).
                if x then process_sack_bitmap a.sack_base_psn a.sack_bitmap mid else some mid)
              cc
            ∙ r,
        record {
          mid = mid;
          acks = acks;
          pdc = m.pdc ∙ acks.pdc;
          events = m.events;
          pkts = m.pkts;
          marks = λ e. m;
          plain = λ e. absurd (false≢true (sym e ∙ cc));
        },
      )
  | inr plain ↦ (
    mid,
    ap (λ (x : Bool). if x then process_sack_bitmap a.sack_base_psn a.sack_bitmap mid else some mid)
        plain,
    record {
      mid = mid;
      acks = acks;
      pdc = acks.pdc;
      events = refl;
      pkts = λ q. refl;
      marks = λ e. absurd (false≢true (sym plain ∙ e));
      plain = λ e q. refl;
    },
  )
]

-- What holds of the cumulative acknowledgement, with the peer's range taken in.
module _ (a : Ack) (w : World) (anchor c b s n : ℕ) (i : IsSender w.pdc anchor c s n)
    (h : b < n) where
  abbrev ranged : World
  ranged = record w { pdc = with_mpr a w.pdc }

  same_bm : (with_mpr a w.pdc).tx_bm ≡ w.pdc.tx_bm
  same_bm = ap (λ (p : Pdc). p.tx_bm) (with_mpr_frame a w.pdc)

  pub process_cack-ranged :
      ((q : ℕ) × Faulty 0 (later c b + 1 - s) ranged q
        × (process_cack (add32 anchor b) ranged ≡ none))
      ⊎ ((out : World) × (process_cack (add32 anchor b) ranged ≡ some out)
          × Acks 0 (later c b + 1 - s) (record w { pdc = told a anchor c b w.pdc }) out)
  process_cack-ranged =
      let sender = with_mpr-IsSender i a in
      let after = later-IsSender sender b h in
      process_cack_lem ranged anchor c b s sender.window i.small (omega (arith, i.acked, i.near))
        (omega (arith, h, i.near)) (omega (arith, i.begun, i.near)) sender.max_cack sender.base
        (omega (arith, after.acked, i.fits))

  -- A packet that it covers, neither acknowledged nor with a handle, is a fault.
  pub process_cack-faults :
      (q : ℕ) → Faulty 0 (later c b + 1 - s) w q → process_cack (add32 anchor b) ranged ≡ none
  process_cack-faults q f =
      let sender = with_mpr-IsSender i a in
      let after = later-IsSender sender b h in
      process_cack-none ranged anchor c b s q sender.window i.small (omega (arith, i.acked, i.near))
        (omega (arith, h, i.near)) (omega (arith, i.begun, i.near)) sender.max_cack sender.base
        (omega (arith, after.acked, i.fits))
        (record {
          sent = subst (λ bm. Sent bm 0 (later c b + 1 - s) q) (sym same_bm) f.sent;
          fresh = f.fresh;
          null = f.null;
        })

  no_fault :
      ((q : ℕ)
        → Sent w.pdc.tx_bm 0 (later c b + 1 - s) q
        → acked w q ≡ false
        → ((w.pkts q).tx_pkt_handle == 0) ≡ false)
      → (out : World) × (process_cack (add32 anchor b) ranged ≡ some out)
        × Acks 0 (later c b + 1 - s) (record w { pdc = told a anchor c b w.pdc }) out
  no_fault answered = elim process_cack-ranged [
    | inr r ↦ r
    | inl (q, f, r) ↦ absurd (
        false≢true (
          sym (answered q (subst (λ bm. Sent bm 0 (later c b + 1 - s) q) same_bm f.sent) f.fresh)
          ∙ f.null))
  ]

pub take_in_lem :
    (a : Ack) (w : World) (anchor c b s n : ℕ)
    → IsSender w.pdc anchor c s n
    → a.cack_psn ≡ add32 anchor b
    → b < n
    → ((q : ℕ)
        → Sent w.pdc.tx_bm 0 (later c b + 1 - s) q
        → acked w q ≡ false
        → ((w.pkts q).tx_pkt_handle == 0) ≡ false)
    → (out : World) × (take_in a w ≡ some out)
      × Taken a (later c b + 1 - s) (record w { pdc = told a anchor c b w.pdc }) out
unfolding take_in
take_in_lem a w anchor c b s n i e h answered =
    let after = later-IsSender (with_mpr-IsSender i a) b h in
    let (mid, r, acks) = no_fault a w anchor c b s n i h answered in
    let (out, f, t) =
      sack_in-Taken a (later c b + 1 - s) (record w { pdc = told a anchor c b w.pdc }) mid
        after.window acks in
    (
      out,
      ap (λ (x : ℕ). process_cack x (record w { pdc = with_mpr a w.pdc }) >>= sack_in a) e
          ∙ ap (λ (x : Option World). x >>= sack_in a) r
          ∙ f,
      t,
    )

-- Exactly the packets that the SACK bitmap reports to `pdc` are marked as received in `out`, beside those
-- that were in `w`; none is where the acknowledgement carries no bitmap.
pub record Sacked (a : Ack) (pdc : Pdc) (w out : World) : Type 0 where
  pub kept : (q : ℕ) → received w q ≡ true → received out q ≡ true
  pub all :
      (q j : ℕ)
      → a.is_cc ≡ true
      → j < 64
      → Reports a.sack_base_psn a.sack_bitmap pdc j q
      → received out q ≡ true
  pub only :
      (q : ℕ)
      → received w q ≡ false
      → received out q ≡ true
      → (a.is_cc ≡ true) × (j : ℕ) × (j < 64) × Reports a.sack_base_psn a.sack_bitmap pdc j q

pub Taken-Sacked :
    (a : Ack) (k : ℕ) (w v out : World)
    → ((q : ℕ) → received w q ≡ received v q)
    → Taken a k w out
    → Sacked a w.pdc v out
Taken-Sacked a k w v out same t = record {
  kept = λ q e. elim (Bool-cases a.is_cc) [
    | inl cc ↦ (t.marks cc).kept q (at_mid q ∙ e)
    | inr no_cc ↦ t.plain no_cc q ∙ at_mid q ∙ e
  ];
  all = λ q j cc h r.
      (t.marks cc).all q j (omega arith) h
        (subst (λ (p : Pdc). Reports a.sack_base_psn a.sack_bitmap p j q) (sym t.acks.pdc) r);
  only = λ q e f. elim (Bool-cases a.is_cc) [
    | inl cc ↦
        let (j, low, high, r) = (t.marks cc).only q (at_mid q ∙ e) f in
        (cc, j, high, subst (λ (p : Pdc). Reports a.sack_base_psn a.sack_bitmap p j q) t.acks.pdc r)
    | inr no_cc ↦ absurd (false≢true (sym (t.plain no_cc q ∙ at_mid q ∙ e) ∙ f))
  ];
}
  where
    at_mid : (q : ℕ) → received t.mid q ≡ received v q
    at_mid q = ap (λ (x : Pkt). x.dst_recvd) (t.acks.pkts q) ∙ same q
