-- ===== src/Pds/Ack/Whole.antt =====
-- uet_pds_process_ack as a whole.
use native.Mathlib.Decide.{dec_lt}
use uet_ref_prov.Base.{
  is_zero, ℕ, ◌+◌, ◌-◌, ◌^◌, ◌<◌, ◌≡◌, refl, sym, ap, ◌∙◌, subst, Bool, true, false, not, ◌&&◌,
  Option, none, some, ◌||◌, ◌⊎◌, ==_iff, List, [], ◌∷◌, pos, ltb, if◌then◌else◌, Bool-cases, inl,
  inr, ◌==◌, arith, lt→ltb, ltb-false,
}
use uet_ref_prov.Pds.Psn.{add32, sub32, psn_after}
use uet_ref_prov.Pds.Psn.Laws.{psn_after_lem}
use uet_ref_prov.Pds.State.{Pkt, Pdc, Event, rx_rsp_with, World}
use uet_ref_prov.Pds.Rx.{einval}
use uet_ref_prov.Pds.Rx.Window.{IsWindow}
use uet_ref_prov.Pds.Tx.Cack.{acked, Sent, some-injective}
use uet_ref_prov.Pds.Tx.Cack.Loop.{later, after_ack}
use uet_ref_prov.Pds.Tx.Sack.{received}
use mathlib.Core.Bool.{false≢true}
use uet_ref_prov.Pds.Free.Loop.{freed_pdc, free_pdc_lem}
use uet_ref_prov.Pds.Ack.{
  Outside, Ack, End, returns, sends, Explicit, unknown, already, first_time, explicit, mark_acked,
  with_mpr, is_syn, acks_close, established_pdc, establish, wants_clear, wants_close, move_on,
  respond, answer, start_psn_events, adopt_start_psn, close_acked, check_pkt_src, acked_by,
  process_ack,
}
use uet_ref_prov.Pds.Ack.Sender.{
  IsSender, later-IsSender, with_mpr-IsSender, with_mpr_frame, established-IsSender,
}
use uet_ref_prov.Pds.Ack.Taken.{told, take_in_lem, Sacked, Taken-Sacked}
use uet_ref_prov.Pds.Ack.Named.{Known, Holds, before, twice, once, explicit_lem}
use uet_ref_prov.Pds.Ack.Processed.{
  Processed, Processed-plain, Processed-mark, Processed-then, Processed-pdc,
}
use uet_ref_prov.Pds.Ack.Outcome.{
  Accepted, Moved, Outcome, bad_source, bad_pdc, not_sent, no_packet, repeated, closed, answered,
  ses_failed, shift_tx_window-Moved,
}

-- SES can be told of every packet that is acknowledged: each of the `k` first indices that is not yet
-- has a handle or is the one named, and the one named has a handle where a response comes with it,
-- unless it is the close command.
pub record Answers (a : Ack) (w : World) (s i k : ℕ) : Type 0 where
  pub covered :
      (q : ℕ)
      → Sent w.pdc.tx_bm 0 k q
      → acked w q ≡ false
      → Holds w s i q ⊎ (((w.pkts q).tx_pkt_handle == 0) ≡ false)
  pub named :
      (p : ℕ)
      → Holds w s i p
      → acked w p ≡ false
      → acks_close a w.pdc ≡ false
      → a.carries ≡ true
      → ((w.pkts p).tx_pkt_handle == 0) ≡ false

Holds-same : {w : World} {s i p q : ℕ} → Holds w s i p → Holds w s i q → p ≡ q
Holds-same x y = some-injective (sym x.packet ∙ y.packet)

already_not : {w : World} {s i q : ℕ} → Known w s i already → Holds w s i q → acked w q ≡ false → ⊥
already_not (before l) h e = omega (arith, l, h.above)
already_not {w = w} (twice x f) h e = false≢true (sym e ∙ ap (acked w) (sym (Holds-same x h)) ∙ f)

packet_named : {w : World} {s i p : ℕ} → Known w s i (first_time p) → Holds w s i p
packet_named (once h e) = h

mark_received : (w : World) (p q : ℕ) → received (mark_acked w p) q ≡ received w q
mark_received w p q = elim (Bool-cases (p == q)) [
  | inr e ↦
      ap
        (λ (b : Bool).
          (if b then record (w.pkts p) { tx_pkt_acked = true } else w.pkts q).dst_recvd)
        e
  | inl e ↦
      ap
        (λ (b : Bool).
          (if b then record (w.pkts p) { tx_pkt_acked = true } else w.pkts q).dst_recvd)
        e
      ∙ ap (received w) ((==_iff p q).0 e)
]

module _ (o : Outside) (a : Ack) (w : World) (anchor b c i s n : ℕ)
    (sender : IsSender w.pdc anchor c s n) (ok : Accepted a w b n)
    (answers : Answers a w s i (later c b + 1 - s)) where
  Ends : Option (World × End) → Type 0
  Ends r =
      (out : World) × (end : End) × (r ≡ some (out, end)) × Outcome o a w anchor b c i s n out end

  told-IsSender : IsSender (told a anchor c b w.pdc) anchor (later c b) s n
  told-IsSender = later-IsSender (with_mpr-IsSender sender a) b ok.sent

  same_window : (told a anchor c b w.pdc).tx_bm ≡ w.pdc.tx_bm
  same_window = ap (λ (p : Pdc). p.tx_bm) (with_mpr_frame a w.pdc)

  same_rx : (told a anchor c b w.pdc).rx_bm ≡ w.pdc.rx_bm
  same_rx = ap (λ (p : Pdc). p.rx_bm) (with_mpr_frame a w.pdc)

  same_close : acks_close a (told a anchor c b w.pdc) ≡ acks_close a w.pdc
  same_close = ap (acks_close a) (with_mpr_frame a w.pdc)

  -- A packet that is acknowledged already.
  on_repeated :
      a.cack_psn ≡ add32 anchor b → Known w s i already → Ends (acked_by o a w (some already))
  unfolding Ends
  on_repeated e k =
      let (mid, r, t) = take_in_lem a w anchor c b s n sender e ok.sent covered in
      let p = Processed-plain a (later c b + 1 - s) (told a anchor c b w.pdc) w mid same_window t in
      let (out, f, moved) =
        shift_tx_window-Moved mid anchor (later c b) s n
          (subst (λ q. IsSender q anchor (later c b) s n) (sym p.now) told-IsSender) in
      (
        out,
        returns (pos 0),
        rw (r, f),
        repeated k ok
            (Taken-Sacked a (later c b + 1 - s) (record w { pdc = told a anchor c b w.pdc }) w mid
              (λ q. refl) t)
            p moved,
      )
    where
      covered :
          (q : ℕ)
          → Sent w.pdc.tx_bm 0 (later c b + 1 - s) q
          → acked w q ≡ false
          → ((w.pkts q).tx_pkt_handle == 0) ≡ false
      covered q x fresh = elim (answers.covered q x fresh) [
        | inl h ↦ absurd (already_not k h fresh)
        | inr z ↦ z
      ]

  move_on-Moved :
      (mid : World)
      → IsSender mid.pdc anchor (later c b) s n
      → (out : World) × (move_on a mid
          ≡ some (out, sends (wants_clear a out.pdc) (wants_close out.pdc)))
        × Moved anchor (later c b) s n mid out
  unfolding move_on
  move_on-Moved mid i =
      let (out, f, moved) = shift_tx_window-Moved mid anchor (later c b) s n i in
      (out, rw f refl, moved)

  -- A packet `p` that is acknowledged for the first time.
  module _ (p : ℕ) (named : Known w s i (first_time p)) (fresh : acked w p ≡ false) where
    abbrev Reported : World → Type 0
    Reported out = Sacked a (told a anchor c b w.pdc) w out

    abbrev First : Pdc → List Event → World → Type 0
    First pdc extra out = Processed (later c b + 1 - s) pdc (p ∷ []) extra w out

    on_close :
        (mid : World)
        → acks_close a w.pdc ≡ true
        → IsWindow w.pdc.rx_bm
        → First (told a anchor c b w.pdc) [] mid
        → Reported mid
        → Ends (close_acked o a mid)
    unfolding Ends close_acked
    on_close mid closes rx r sack =
        let same_events : start_psn_events o a mid.pdc ≡ start_psn_events o a w.pdc =
          ap (start_psn_events o a) (r.now ∙ with_cack) in
        let then_adopted =
          Processed-then (later c b + 1 - s) (told a anchor c b w.pdc) (p ∷ [])
            (start_psn_events o a mid.pdc) w mid r in
        let adopted : First (told a anchor c b w.pdc) (start_psn_events o a w.pdc)
            (adopt_start_psn o a mid) =
          subst (λ e. First (told a anchor c b w.pdc) e (adopt_start_psn o a mid)) same_events
            then_adopted in
        let (out, f, moved) =
          shift_tx_window-Moved (adopt_start_psn o a mid) anchor (later c b) s n
            (subst (λ q. IsSender q anchor (later c b) s n) (sym r.now) told-IsSender) in
        (
          freed_pdc out,
          returns (pos 0),
          rw (f, (free_pdc_lem out moved.sender.window (rx_of out moved)).0) refl,
          closed named ok (record { kept = sack.kept; all = sack.all; only = sack.only }) closes
              adopted moved,
        )
      where
        with_cack : told a anchor c b w.pdc ≡ record (w.pdc) {
          max_cack_psn = add32 anchor (later c b);
          peer_mp_range = (with_mpr a w.pdc).peer_mp_range;
          mpr_update_cack_psn = (with_mpr a w.pdc).mpr_update_cack_psn;
          mpr_update_valid = (with_mpr a w.pdc).mpr_update_valid;
        }
        with_cack =
            ap (λ (q : Pdc). record q { max_cack_psn = add32 anchor (later c b) })
              (with_mpr_frame a w.pdc)

        rx_of :
            (out : World)
            → Moved anchor (later c b) s n (adopt_start_psn o a mid) out
            → IsWindow out.pdc.rx_bm
        rx_of out moved =
            subst IsWindow
              (sym (
                ap (λ (q : Pdc). q.rx_bm) moved.advances.pdc
                ∙ ap (λ (q : Pdc). q.rx_bm) r.now
                ∙ same_rx))
              rx

    on_answer :
        (mid : World)
        → acks_close a w.pdc ≡ false
        → First (told a anchor c b w.pdc) [] mid
        → Reported mid
        → Ends (answer o a p (establish a mid))
    unfolding Ends answer
    on_answer mid stays r sack = elim (Bool-cases a.carries) [
      | inr plain ↦
          let (out, f, moved) = move_on-Moved est of_est in
          (
            out,
            sends (wants_clear a out.pdc) (wants_close out.pdc),
            ap (λ (x : Bool). by_tests x null (is_zero o.ses_code)) plain ∙ f,
            answered named ok (record { kept = sack.kept; all = sack.all; only = sack.only }) stays
                (ap (λ (x : Bool). x && not (is_zero o.ses_code)) plain)
                (subst (λ e. First pdc' e est)
                  (sym (
                    ap (λ (x : Bool). if x then rx_rsp_with (w.pkts p).tx_pkt_handle ∷ [] else [])
                      plain))
                  est_r)
                moved,
          )
      | inl carries ↦
          let has_handle = handled mid r carries stays in
          elim (Bool-cases (is_zero o.ses_code)) [
            | inr fails ↦ (
              respond est p,
              returns o.ses_code,
              ap (λ (x : Bool). by_tests x null (is_zero o.ses_code)) carries
                  ∙ ap (λ (x : Bool). by_tests true x (is_zero o.ses_code)) has_handle
                  ∙ ap (by_tests true false) fails,
              ses_failed named ok (record { kept = sack.kept; all = sack.all; only = sack.only })
                  stays carries fails responded,
            )
            | inl accepts ↦
                let (out, f, moved) = move_on-Moved (respond est p) of_est in
                (
                  out,
                  sends (wants_clear a out.pdc) (wants_close out.pdc),
                  ap (λ (x : Bool). by_tests x null (is_zero o.ses_code)) carries
                      ∙ ap (λ (x : Bool). by_tests true x (is_zero o.ses_code)) has_handle
                      ∙ ap (by_tests true false) accepts
                      ∙ f,
                  answered named ok (record { kept = sack.kept; all = sack.all; only = sack.only })
                      stays
                      (ap (λ (x : Bool). x && not (is_zero o.ses_code)) carries ∙ ap not accepts)
                      (subst (λ e. First pdc' e (respond est p))
                        (sym (
                          ap
                            (λ (x : Bool).
                              if x then rx_rsp_with (w.pkts p).tx_pkt_handle ∷ [] else [])
                            carries))
                        responded)
                      moved,
                )
          ]
    ]
      where
        est : World
        est = establish a mid

        null : Bool
        null = (est.pkts p).tx_pkt_handle == 0

        handled :
            (mid : World)
            → First (told a anchor c b w.pdc) [] mid
            → a.carries ≡ true
            → acks_close a w.pdc ≡ false
            → ((mid.pkts p).tx_pkt_handle == 0) ≡ false
        handled mid r carries stays =
            ap (λ (x : Pkt). x.tx_pkt_handle == 0) (r.pkts p)
            ∙ answers.named p (packet_named named) fresh stays carries

        by_tests : Bool → Bool → Bool → Option (World × End)
        by_tests x z y =
            if not x
            then move_on a est
            else if z
            then none
            else if not y
            then some (respond est p, returns o.ses_code)
            else move_on a (respond est p)

        pdc' : Pdc
        pdc' = established_pdc a (told a anchor c b w.pdc)

        est_r : First pdc' [] est
        est_r =
            Processed-pdc (later c b + 1 - s) (told a anchor c b w.pdc) (established_pdc a) (p ∷ [])
              [] w mid r

        of_est : IsSender est.pdc anchor (later c b) s n
        of_est =
            established-IsSender a mid.pdc anchor (later c b) s n
              (subst (λ q. IsSender q anchor (later c b) s n) (sym r.now) told-IsSender)

        responded : First pdc' (rx_rsp_with (w.pkts p).tx_pkt_handle ∷ []) (respond est p)
        responded =
            subst (λ (h : ℕ). First pdc' (rx_rsp_with h ∷ []) (respond est p))
              (ap (λ (x : Pkt). x.tx_pkt_handle) (r.pkts p))
              (Processed-then (later c b + 1 - s) pdc' (p ∷ [])
                (rx_rsp_with (est.pkts p).tx_pkt_handle ∷ []) w est est_r)

    on_first :
        a.cack_psn ≡ add32 anchor b
        → IsWindow w.pdc.rx_bm
        → Ends (acked_by o a w (some (first_time p)))
    unfolding Ends
    on_first e rx =
        let (mid, r, t) = take_in_lem a (mark_acked w p) anchor c b s n sender e ok.sent covered in
        let q = Processed-mark (later c b + 1 - s) p (told a anchor c b w.pdc) w mid fresh (
          Processed-plain a (later c b + 1 - s) (told a anchor c b w.pdc) (mark_acked w p) mid
            same_window t) in
        let sack =
          Taken-Sacked a (later c b + 1 - s)
            (record (mark_acked w p) { pdc = told a anchor c b w.pdc }) w mid (mark_received w p)
            t in
        let test : acks_close a mid.pdc ≡ acks_close a w.pdc =
          ap (acks_close a) q.now ∙ same_close in
        elim (Bool-cases (acks_close a w.pdc)) [
          | inl closes ↦
              let (out, end, f, outcome) = on_close mid closes rx q sack in
              (out, end, rw (r, test ∙ closes) f, outcome)
          | inr stays ↦
              let (out, end, f, outcome) = on_answer mid stays q sack in
              (out, end, rw (r, test ∙ stays) f, outcome)
        ]
      where
        covered :
            (q : ℕ)
            → Sent w.pdc.tx_bm 0 (later c b + 1 - s) q
            → acked (mark_acked w p) q ≡ false
            → (((mark_acked w p).pkts q).tx_pkt_handle == 0) ≡ false
        covered q x e =
            let (unmarked, same, other) = after_ack w.pkts p q e in
            elim (answers.covered q x unmarked) [
              | inr z ↦ ap (λ (k : Pkt). k.tx_pkt_handle == 0) same ∙ z
              | inl h ↦
                  absurd
                    (false≢true (sym other ∙ (==_iff p q).1 (Holds-same (packet_named named) h)))
            ]

  on_known :
      (k : Explicit)
      → explicit w a.psn ≡ some k
      → Known w s i k
      → a.cack_psn ≡ add32 anchor b
      → IsWindow w.pdc.rx_bm
      → Ends (acked_by o a w (explicit w a.psn))
  unfolding Ends
  on_known unknown f k e rx = (w, returns einval, rw f refl, no_packet ok k)
  on_known already f k e rx =
      let (out, end, r, outcome) = on_repeated e k in (out, end, ap (acked_by o a w) f ∙ r, outcome)
  on_known (first_time p) f k e rx =
      let (out, end, r, outcome) = on_first p k (not_yet k) e rx in
      (out, end, ap (acked_by o a w) f ∙ r, outcome)
    where
      not_yet : {p : ℕ} → Known w s i (first_time p) → acked w p ≡ false
      not_yet (once h fresh) = fresh

-- For a PDC with sound windows, an acknowledgement of the PSN at distance `i` past an anchor, with a
-- cumulative one of that at distance `b`, both less than 2 ^ 30, by which SES can be told of every packet
-- that is acknowledged (see process_cack_lem), is processed without a null packet and
-- without end of the loops, and ends in one of these ways. It is refused with EINVAL and changes
-- nothing: where it comes from another source or for another PDC, acknowledges a PSN that is not sent,
-- or names none of the packets. Or the later cumulative acknowledgement is kept, exactly the packets up
-- to it and the one named are acknowledged beside those that were, SES gets one response for each that
-- is newly acknowledged and not the one named, and the window moves on past the acknowledged
-- packets at its base, which are freed in order; the sender's half of the PDC stays sound. For the one named
-- SES is handed the response once, where it is there and the packet was not acknowledged before; if SES
-- refuses it the window stays; exactly the packets that the SACK bitmap reports are marked as received.
-- The conditions of the ways exclude each other. If it names the close command for the first time, the PDC is
-- freed with all packets that it holds.
pub process_ack_lem :
    (o : Outside) (a : Ack) (w : World) (anchor b c i s n : ℕ)
    → IsSender w.pdc anchor c s n
    → IsWindow w.pdc.rx_bm
    → b < 2 ^ 30
    → i < 2 ^ 30
    → a.cack_psn ≡ add32 anchor b
    → a.psn ≡ add32 anchor i
    → Answers a w s i (later c b + 1 - s)
    → (out : World) × (end : End) × (process_ack o a w ≡ some (out, end))
      × Outcome o a w anchor b c i s n out end
unfolding process_ack Ends
process_ack_lem o a w anchor b c i s n sender rx hb hi eb ei answers =
    elim (Bool-cases (check_pkt_src w.pdc a)) [
      | inr e ↦ (w, returns einval, rw e refl, bad_source e)
      | inl source ↦
          elim (Bool-cases (not (is_syn w.pdc.state) && not (w.pdc.dpdcid == a.spdcid))) [
            | inl e ↦
                let (x, y) = both e in (w, returns einval, rw (source, e) refl, bad_pdc source x y)
            | inr pdc ↦ elim (dec_lt b n) [
              | no e ↦ (
                w,
                returns einval,
                rw (source, pdc, beyond, lt→ltb (n - 1) b (omega (arith, e, sender.acked))) refl,
                not_sent source (either (is_syn w.pdc.state) (w.pdc.dpdcid == a.spdcid) pdc)
                    (omega (arith, e)),
              )
              | yes l ↦
                  let (k, f, known) = explicit_lem w anchor c s n i sender hi in
                  let (out, end, r, outcome) =
                    on_known o a w anchor b c i s n sender
                      (record {
                        source = source;
                        pdc = either (is_syn w.pdc.state) (w.pdc.dpdcid == a.spdcid) pdc;
                        sent = l;
                      })
                      answers k (ap (explicit w) ei ∙ f) known eb rx in
                  (
                    out,
                    end,
                    rw (source, pdc, beyond, ltb-false (n - 1) b (omega (arith, l))) r,
                    outcome,
                  )
            ]
          ]
    ]
  where
    last : w.pdc.next_psn ≡ add32 anchor n → c < n → sub32 w.pdc.next_psn 1 ≡ add32 anchor (n - 1)
    last e h = omega (arith, e, h)

    beyond : psn_after a.cack_psn (sub32 w.pdc.next_psn 1) ≡ ltb (n - 1) b
    beyond =
        ap (λ (x : ℕ). psn_after x (sub32 w.pdc.next_psn 1)) eb
        ∙ ap (psn_after (add32 anchor b)) (last sender.next sender.acked)
        ∙ (psn_after_lem anchor b (n - 1) sender.small (omega (arith, hb))
            (omega (arith, sender.near))).0

    either : (x y : Bool) → (not x && not y) ≡ false → (x || y) ≡ true
    either x y e = ground arith

    both : {x y : Bool} → (not x && not y) ≡ true → (x ≡ false) × (y ≡ false)
    both {x} {y} e = ground arith
