-- ===== src/Pds/Nack/Restart.antt =====
-- uet_pds_reestablish_start_psn: the sender moves to another start PSN.
use mathlib.Core.Bool.{false≢true}
use uet_ref_prov.Base.{
  ℕ, ◌^◌, ◌<◌, ◌≡◌, ◌≢◌, refl, sym, ap, ◌∙◌, subst, Bool, true, false, not, ◌&&◌, ◌||◌, List, [],
  ◌∷◌, ◌==◌, if◌then◌else◌, Bool-cases, inl, inr, arith, ==_false, ==_iff,
}
use uet_ref_prov.Pds.Psn.{add32, sub32}
use uet_ref_prov.Pds.State.{Pkt, Pdc, World, write}
use uet_ref_prov.Pds.Ack.{is_syn}
use uet_ref_prov.Pds.Ack.Sender.{IsSender}
use uet_ref_prov.Pds.Close.{Env, Sending}
use uet_ref_prov.Pds.Nack.{sent_again, shifted_pdc, redrive, redrive_all, reestablish_start_psn}

abbrev pub listed : ℕ → List ℕ → Bool
listed q [] = false
listed q (p ∷ l) = p == q || listed q l

-- No packet is twice in a list.
abbrev pub once : List ℕ → Bool
once [] = true
once (p ∷ l) = not (listed p l) && once l

-- A packet as it is sent again.
abbrev pub restamped : ℕ → Pkt → Pkt
restamped delta k = record k { psn = add32 k.psn delta; tx_retry_cnt = 0 }

-- Every packet of a list that is not acknowledged is restamped once, and nothing else changes.
abbrev pub Redriven : ℕ → World → List ℕ → World → Type 0
Redriven delta w l out =
    (out.pdc ≡ w.pdc)
    × ((q : ℕ)
        → out.pkts q ≡ (
            if listed q l && not (w.pkts q).tx_pkt_acked
            then restamped delta (w.pkts q)
            else w.pkts q))

redrive_pdc : (env : Env) (delta : ℕ) (w : World) (p : ℕ) → (redrive env delta w p).pdc ≡ w.pdc
redrive_pdc env delta w p = elim (Bool-cases (w.pkts p).tx_pkt_acked) [
  | inl a ↦ rw a refl
  | inr a ↦ rw a refl
]

redrive_pkts :
    (env : Env) (delta : ℕ) (w : World) (p q : ℕ)
    → (redrive env delta w p).pkts q
      ≡ (if p == q && not (w.pkts q).tx_pkt_acked then restamped delta (w.pkts q) else w.pkts q)
redrive_pkts env delta w p q = elim (Bool-cases (p == q)) [
  | inl e ↦
      subst (λ (x : ℕ). (redrive env delta w p).pkts x ≡ at x (p == x)) ((==_iff p q).0 e)
        (same (w.pkts p).tx_pkt_acked ∙ sym (ap (at p) itself))
  | inr e ↦ other (w.pkts p).tx_pkt_acked e ∙ sym (ap (at q) e)
]
  where
    at : ℕ → Bool → Pkt
    at x d = if d && not (w.pkts x).tx_pkt_acked then restamped delta (w.pkts x) else w.pkts x

    sent : World
    sent = record w {
      pkts = write w.pkts p (restamped delta (w.pkts p));
      events = sent_again env p w.events;
    }

    itself : (p == p) ≡ true
    itself = (==_iff p p).1 refl

    same :
        (a : Bool)
        → (if a then w else sent).pkts p
          ≡ (if true && not a then restamped delta (w.pkts p) else w.pkts p)
    same true = refl
    same false = ap (λ (d : Bool). if d then restamped delta (w.pkts p) else w.pkts p) itself

    other : (a : Bool) → (p == q) ≡ false → (if a then w else sent).pkts q ≡ w.pkts q
    other true e = refl
    other false e = ap (λ (d : Bool). if d then restamped delta (w.pkts p) else w.pkts q) e

-- One more packet in front.
compose :
    (delta : ℕ) (x y : Bool) (k m : Pkt)
    → m ≡ (if x && not k.tx_pkt_acked then restamped delta k else k)
    → (not y || not x) ≡ true
    → (if y && not m.tx_pkt_acked then restamped delta m else m)
      ≡ (if (x || y) && not k.tx_pkt_acked then restamped delta k else k)
compose delta true true k m e h = absurd (false≢true h)
compose delta true false k m e h = e
compose delta false y k m e h =
    ap (λ (m : Pkt). if y && not m.tx_pkt_acked then restamped delta m else m) e

redrive_all-Redriven :
    (env : Env) (delta : ℕ) (l : List ℕ) (w : World)
    → once l ≡ true
    → Redriven delta w l (redrive_all env delta w l)
unfolding redrive_all
redrive_all-Redriven env delta [] w h = (refl, λ q. refl)
redrive_all-Redriven env delta (p ∷ l) w h =
    let (pdc, pkts) =
      redrive_all-Redriven env delta l (redrive env delta w p) (rest (listed p l) (once l) h) in
    (
      pdc ∙ redrive_pdc env delta w p,
      λ q.
          pkts q
          ∙ compose delta (p == q) (listed q l) (w.pkts q) ((redrive env delta w p).pkts q)
              (redrive_pkts env delta w p q) (apart q),
    )
  where
    rest : (x y : Bool) → (not x && y) ≡ true → y ≡ true
    rest x y e = ground arith

    front : (x y : Bool) → (not x && y) ≡ true → x ≡ false
    front x y e = ground arith

    apart : (q : ℕ) → (not (listed q l) || not (p == q)) ≡ true
    apart q = elim (Bool-cases (p == q)) [
      | inr e ↦ rw e (either (listed q l))
      | inl e ↦
          ap (λ (b : Bool). not b || not (p == q))
            (ap (λ (x : ℕ). listed x l) (sym ((==_iff p q).0 e)) ∙ front (listed p l) (once l) h)
    ]
      where
        either : (b : Bool) → (not b || true) ≡ true
        either b = ground arith

-- `out` is `s` with the window and the packets at the PSNs of another start.
pub record Restarted (s : Sending) (new anchor c b n : ℕ) (out : Sending) : Type 0 where
  pub start : out.world.pdc.start_psn ≡ new
  pub sender : IsSender out.world.pdc (add32 anchor (sub32 new s.world.pdc.start_psn)) c b n
  pub window : out.world.pdc.tx_bm ≡ s.world.pdc.tx_bm
  pub tx_list : out.tx_list ≡ s.tx_list
  pub pkts :
      (q : ℕ)
      → out.world.pkts q ≡ (
          if listed q s.tx_list && not (s.world.pkts q).tx_pkt_acked
          then restamped (sub32 new s.world.pdc.start_psn) (s.world.pkts q)
          else s.world.pkts q)
  pub place :
      (q : ℕ)
      → listed q s.tx_list ≡ true
      → (s.world.pkts q).tx_pkt_acked ≡ false
      → sub32 (out.world.pkts q).psn out.world.pdc.tx_bm_base_psn
        ≡ sub32 (s.world.pkts q).psn s.world.pdc.tx_bm_base_psn

-- Before the PDC is established, another start PSN shifts the sender: its window is the same at the
-- shifted PSNs, every packet of the transmit list, where none is twice, that is not acknowledged
-- is at the place in the window where it was, with no retries counted, and no other packet changes.
pub reestablish_lem :
    (env : Env) (s : Sending) (new anchor c b n k : ℕ)
    → IsSender s.world.pdc anchor c b n
    → s.world.pdc.start_psn ≡ add32 anchor k
    → new < 2 ^ 32
    → new ≢ s.world.pdc.start_psn
    → is_syn s.world.pdc.state ≡ true
    → once s.tx_list ≡ true
    → Restarted s new anchor c b n (reestablish_start_psn env new s)
unfolding reestablish_start_psn
reestablish_lem env s new anchor c b n k sender start small other syn distinct =
    rw (syn, ==_false (sub32 new s.world.pdc.start_psn) 0 apart)
      (record {
        start = ap (λ (x : Pdc). x.start_psn) all.0 ∙ lands;
        sender = subst (λ (x : Pdc). IsSender x (add32 anchor delta) c b n) (sym all.0) moved;
        window = ap (λ (x : Pdc). x.tx_bm) all.0;
        tx_list = refl;
        pkts = all.1;
        place = λ q l a.
            ap (λ (x : Pkt). sub32 x.psn (redrive_all env delta begin s.tx_list).pdc.tx_bm_base_psn)
              (all.1 q
                ∙ chosen (listed q s.tx_list) (s.world.pkts q).tx_pkt_acked
                    (restamped delta (s.world.pkts q)) (s.world.pkts q) l a)
            ∙ ap (λ (x : Pdc). sub32 (add32 (s.world.pkts q).psn delta) x.tx_bm_base_psn) all.0
            ∙ keeps (s.world.pkts q).psn s.world.pdc.tx_bm_base_psn delta based (omega arith);
      })
  where
    delta : ℕ
    delta = sub32 new s.world.pdc.start_psn

    begin : World
    begin = record (s.world) { pdc = shifted_pdc delta s.world.pdc }

    all : Redriven delta begin s.tx_list (redrive_all env delta begin s.tx_list)
    all = redrive_all-Redriven env delta s.tx_list begin distinct

    from : s.world.pdc.start_psn < 2 ^ 32
    from = subst (λ (x : ℕ). x < 2 ^ 32) (sym start) (omega arith)

    apart : sub32 new s.world.pdc.start_psn ≢ 0
    apart e = other (differ new s.world.pdc.start_psn small from e)
      where
        differ : (x y : ℕ) → x < 2 ^ 32 → y < 2 ^ 32 → sub32 x y ≡ 0 → x ≡ y
        differ x y hx hy e = omega (arith, hx, hy, e)

    lands : add32 s.world.pdc.start_psn delta ≡ new
    lands = back new s.world.pdc.start_psn small from
      where
        back : (x y : ℕ) → x < 2 ^ 32 → y < 2 ^ 32 → add32 y (sub32 x y) ≡ x
        back x y hx hy = omega (arith, hx, hy)

    chosen : (x y : Bool) (v u : Pkt) → x ≡ true → y ≡ false → (if x && not y then v else u) ≡ v
    chosen true false v u e f = refl
    chosen true true v u e f = absurd (false≢true (sym f))
    chosen false y v u e f = absurd (false≢true e)

    based : s.world.pdc.tx_bm_base_psn < 2 ^ 32
    based = subst (λ (x : ℕ). x < 2 ^ 32) (sym sender.base) (omega arith)

    keeps : (x y d : ℕ) → y < 2 ^ 32 → d < 2 ^ 32 → sub32 (add32 x d) (add32 y d) ≡ sub32 x y
    keeps x y d hy hd = omega (arith, hy, hd)

    swap : (x y z : ℕ) → add32 (add32 x y) z ≡ add32 (add32 x z) y
    swap x y z = omega arith

    moved : IsSender (shifted_pdc delta s.world.pdc) (add32 anchor delta) c b n
    moved = record {
      small = omega arith;
      near = sender.near;
      acked = sender.acked;
      begun = sender.begun;
      fits = sender.fits;
      window = sender.window;
      max_cack = ap (λ (x : ℕ). add32 x delta) sender.max_cack ∙ swap anchor c delta;
      base = ap (λ (x : ℕ). add32 x delta) sender.base ∙ swap anchor b delta;
      next = ap (λ (x : ℕ). add32 x delta) sender.next ∙ swap anchor n delta;
      sent = sender.sent;
    }
