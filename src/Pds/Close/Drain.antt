-- ===== src/Pds/Close/Drain.antt =====
-- What uet_pdsm_drain_tx_pkts does to the window, and what it tells SES.
use native.Mathlib.Decide.{dec_lt}
use uet_ref_prov.Base.{
  ℕ, ◌<◌, ◌≡◌, refl, sym, ap, ◌∙◌, subst, Bool, true, false, not, ◌&&◌, ◌||◌, none, List, [], ◌∷◌,
  ◌++◌, pos, signed32, ◌==◌, if◌then◌else◌, Bool-cases, inl, inr, arith, lt→ltb, ltb-false,
}
use uet_ref_prov.Bitmap.{Bitmap, bm_unset}
use uet_ref_prov.Bitmap.Bits.{bit, datum}
use uet_ref_prov.Bitmap.Update.{bm_unset-IsValid, size-bm_unset, bit-bm_unset, datum-bm_unset}
use uet_ref_prov.Pds.Psn.{sub32, psn_in_mpr}
use uet_ref_prov.Pds.State.{Pkt, Pdc, Memory, Event, freed, unlinked, pds_err, World}
use uet_ref_prov.Pds.Rx.Window.{IsWindow}
use uet_ref_prov.Pds.Close.{Env, untrack, failure, drain_pkt, drain_from}

-- A packet of the list has the PSN at distance `k` from `base`.
abbrev pub names : Memory → ℕ → List ℕ → ℕ → Bool
names pkts base [] k = false
names pkts base (p ∷ l) k = sub32 (pkts p).psn base == k || names pkts base l k

-- The handles of which SES is told a failure, and the packets that are freed, the latest first.
abbrev pub errors : List Event → List ℕ
errors [] = []
errors (pds_err h ∷ l) = h ∷ errors l
errors (e ∷ l) = errors l

abbrev pub frees : List Event → List ℕ
frees [] = []
frees (freed p ∷ l) = p ∷ frees l
frees (e ∷ l) = frees l

-- A list on top of `seen`, its first element the lowest; and the same for the handles of its packets
-- that SES knows of.
abbrev pub onto : List ℕ → List ℕ → List ℕ
onto [] seen = seen
onto (p ∷ l) seen = onto l (p ∷ seen)

abbrev pub handles_onto : Memory → List ℕ → List ℕ → List ℕ
handles_onto pkts [] seen = seen
handles_onto pkts (p ∷ l) seen =
    handles_onto pkts l
      (if (pkts p).tx_pkt_handle == 0 then seen else (pkts p).tx_pkt_handle ∷ seen)

-- `out` is `w` without the packets of a list: their bits are clear and all else of the window is as
-- before, each is freed, and SES is told of each that it knows.
pub record Drained (w : World) (l : List ℕ) (out : World) : Type 0 where
  pub pkts : out.pkts ≡ w.pkts
  pub pdc : out.pdc ≡ record (w.pdc) { tx_bm = out.pdc.tx_bm }
  pub window : IsWindow out.pdc.tx_bm
  pub bits :
      (k : ℕ)
      → k < 128
      → bit out.pdc.tx_bm k ≡ (bit w.pdc.tx_bm k && not (names w.pkts w.pdc.tx_bm_base_psn l k))
  pub told : errors out.events ≡ handles_onto w.pkts l (errors w.events)
  pub gone : frees out.events ≡ onto l (frees w.events)

cleared : (b c : Bool) → (b && not c) ≡ true → (b ≡ true) × (c ≡ false)
cleared b c e = ground arith

unset-IsWindow : (bm : Bitmap ℕ) (i : ℕ) → IsWindow bm → i < 128 → IsWindow (bm_unset bm (pos i))
unset-IsWindow bm i w h = record {
  valid = bm_unset-IsValid bm i w.valid inside;
  full_size = size-bm_unset bm i w.valid inside ∙ w.full_size;
  held = λ k l b.
      let (set, other) =
        cleared (bit bm k) (i == k) (sym (bit-bm_unset bm i w.valid inside k) ∙ b) in
      let (p, e) = w.held k l set in
      (
        p,
        datum-bm_unset bm i w.valid inside k
            ∙ ap (λ (x : Bool). if x then none else datum bm k) other
            ∙ e,
      );
}
  where
    inside : i < bm.size
    inside = omega (arith, h, w.full_size)

-- `out` is the PDC without the packet of a PSN.
record Untracked (pdc : Pdc) (psn : ℕ) (out : Pdc) : Type 0 where
  same : out ≡ record pdc { tx_bm = out.tx_bm }
  window : IsWindow out.tx_bm
  bits :
      (k : ℕ)
      → k < 128
      → bit out.tx_bm k ≡ (bit pdc.tx_bm k && not (sub32 psn pdc.tx_bm_base_psn == k))

untrack-Untracked : (pdc : Pdc) (psn : ℕ) → IsWindow pdc.tx_bm → Untracked pdc psn (untrack pdc psn)
unfolding psn_in_mpr
untrack-Untracked pdc psn w = elim (dec_lt (sub32 psn pdc.tx_bm_base_psn) 128) [
  | yes h ↦ subst (Untracked pdc psn) (sym (taken h)) (record {
    same = refl;
    window = unset-IsWindow pdc.tx_bm (sub32 psn pdc.tx_bm_base_psn) w h;
    bits = λ k l.
        bit-bm_unset pdc.tx_bm (sub32 psn pdc.tx_bm_base_psn) w.valid
          (omega (arith, h, w.full_size)) k;
  })
  | no h ↦ subst (Untracked pdc psn) (sym (left h)) (record {
    same = refl;
    window = w;
    bits = λ k l. beyond (bit pdc.tx_bm k) (sub32 psn pdc.tx_bm_base_psn) k h l;
  })
]
  where
    beyond : (b : Bool) (d k : ℕ) → ¬ d < 128 → k < 128 → b ≡ (b && not (d == k))
    beyond b d k h l = ground arith

    unsets : ℕ → Pdc
    unsets d = record pdc { tx_bm = bm_unset pdc.tx_bm (pos d) }

    at : (d : ℕ) → d < 128 → signed32 d ≡ pos d
    at d h = ground arith

    taken :
        sub32 psn pdc.tx_bm_base_psn < 128
        → untrack pdc psn
          ≡ record pdc { tx_bm = bm_unset pdc.tx_bm (pos (sub32 psn pdc.tx_bm_base_psn)) }
    taken h =
        rw (lt→ltb (sub32 psn pdc.tx_bm_base_psn) 128 h, at (sub32 psn pdc.tx_bm_base_psn) h) refl

    left : ¬ sub32 psn pdc.tx_bm_base_psn < 128 → untrack pdc psn ≡ pdc
    left h = rw (ltb-false (sub32 psn pdc.tx_bm_base_psn) 128 (omega (arith, h))) refl

errors_failure :
    (env : Env) (k : Pkt) (l : List Event)
    → env.has_pds_err ≡ true
    → errors (failure env k ++ l)
      ≡ (if k.tx_pkt_handle == 0 then errors l else k.tx_pkt_handle ∷ errors l)
errors_failure env k l e = elim (Bool-cases (k.tx_pkt_handle == 0)) [
  | inl z ↦ rw (e, z) refl
  | inr z ↦ rw (e, z) refl
]

frees_failure : (env : Env) (k : Pkt) (l : List Event) → frees (failure env k ++ l) ≡ frees l
frees_failure env k l = elim (Bool-cases (env.has_pds_err && not (k.tx_pkt_handle == 0))) [
  | inl z ↦ rw z refl
  | inr z ↦ rw z refl
]

-- A PDC without the packets of its list.
pub drain_from-Drained :
    (env : Env) (l : List ℕ) (w : World)
    → env.has_pds_err ≡ true
    → IsWindow w.pdc.tx_bm
    → Drained w l (drain_from env w l)
unfolding drain_from
drain_from-Drained env [] w e window = record {
  pkts = refl;
  pdc = refl;
  window = window;
  bits = λ k h. both (bit w.pdc.tx_bm k);
  told = refl;
  gone = refl;
}
  where
    both : (b : Bool) → b ≡ (b && not false)
    both b = ground arith
drain_from-Drained env (p ∷ l) w e window =
    let u = untrack-Untracked w.pdc (w.pkts p).psn window in
    let rest = drain_from-Drained env l (drain_pkt env w p) e u.window in
    record {
      pkts = rest.pkts;
      pdc =
          rest.pdc
          ∙ ap (λ (x : Pdc). record x { tx_bm = (drain_from env (drain_pkt env w p) l).pdc.tx_bm })
              u.same;
      window = rest.window;
      bits = λ k h.
          rest.bits k h
          ∙ ap (λ (x : ℕ). bit (untrack w.pdc (w.pkts p).psn).tx_bm k && not (names w.pkts x l k))
              (ap (λ (x : Pdc). x.tx_bm_base_psn) u.same)
          ∙ ap (λ (b : Bool). b && not (names w.pkts w.pdc.tx_bm_base_psn l k)) (u.bits k h)
          ∙ assoc (bit w.pdc.tx_bm k) (sub32 (w.pkts p).psn w.pdc.tx_bm_base_psn == k)
              (names w.pkts w.pdc.tx_bm_base_psn l k);
      told =
          rest.told
          ∙ ap (handles_onto w.pkts l) (errors_failure env (w.pkts p) (unlinked p ∷ w.events) e);
      gone =
          rest.gone
          ∙ ap (λ (x : List ℕ). onto l (p ∷ x))
              (frees_failure env (w.pkts p) (unlinked p ∷ w.events));
    }
  where
    assoc : (b x y : Bool) → ((b && not x) && not y) ≡ (b && not (x || y))
    assoc b x y = ground arith
