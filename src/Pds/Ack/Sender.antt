-- ===== src/Pds/Ack/Sender.antt =====
-- The sender's half of a PDC: what holds of its window and PSNs, and what a shift keeps.
use native.Mathlib.Decide.{dec_lt, ℕ_discrete}
use mathlib.Core.Bool.{false≢true}
use uet_ref_prov.Base.{
  ℕ, ◌+◌, ◌-◌, ◌^◌, ◌≤◌, ◌<◌, ◌≡◌, refl, sym, ap, ◌∙◌, subst, Bool, true, false, not, Bool-cases,
  inl, inr, ◌&&◌, Option, none, some, if◌then◌else◌, arith, if_both, lt→ltb, ltb-false,
}
use uet_ref_prov.Bitmap.{Bitmap}
use uet_ref_prov.Bitmap.Bits.{bit, datum}
use uet_ref_prov.Pds.Psn.{add32, psn_after}
use uet_ref_prov.Pds.State.{established, Pdc, Memory, World}
use uet_ref_prov.Pds.Rx.Window.{IsWindow}
use uet_ref_prov.Pds.Tx.{process_mpr}
use uet_ref_prov.Pds.Tx.Shift.{acked_of, acked_at, Advances}
use uet_ref_prov.Pds.Tx.Cack.Loop.{later}
use uet_ref_prov.Pds.Ack.{Ack, with_mpr, is_syn, established_pdc}

-- From a PSN `anchor` on, the last one acknowledged cumulatively is at distance `c`, the base of the
-- window at `s`, and the next to be sent at `n`; the window reaches up to `n` and holds packets below it.
pub record IsSender (pdc : Pdc) (anchor c s n : ℕ) : Type 0 where
  pub small : anchor < 2 ^ 32
  pub near : n < 2 ^ 30
  pub acked : c < n
  pub begun : s ≤ n
  pub fits : n ≤ s + 128
  pub window : IsWindow pdc.tx_bm
  pub max_cack : pdc.max_cack_psn ≡ add32 anchor c
  pub base : pdc.tx_bm_base_psn ≡ add32 anchor s
  pub next : pdc.next_psn ≡ add32 anchor n
  pub sent : (k : ℕ) → k < 128 → bit pdc.tx_bm k ≡ true → s + k < n

module _ {pdc : Pdc} {anchor c s n : ℕ} (w : IsSender pdc anchor c s n) where
  with_cack : (b : ℕ) → b < n → IsSender (record pdc { max_cack_psn = add32 anchor b }) anchor b s n
  with_cack b h = record {
    small = w.small;
    near = w.near;
    acked = h;
    begun = w.begun;
    fits = w.fits;
    window = w.window;
    max_cack = refl;
    base = w.base;
    next = w.next;
    sent = w.sent;
  }

  later-lt : (b : ℕ) → b < n → later c b < n
  later-lt b h = ground (arith, w.acked)

  pub later-IsSender :
      (b : ℕ)
      → b < n
      → IsSender (record pdc { max_cack_psn = add32 anchor (later c b) }) anchor (later c b) s n
  later-IsSender b h = with_cack (later c b) (later-lt b h)

  process_mpr-IsSender : (m cack : ℕ) → IsSender (process_mpr pdc m cack) anchor c s n
  unfolding process_mpr
  process_mpr-IsSender m cack =
      elim (Bool-cases (pdc.mpr_update_valid && not (psn_after cack pdc.mpr_update_cack_psn))) [
        | inl e ↦ rw e w
        | inr e ↦ rw e (record {
          small = w.small;
          near = w.near;
          acked = w.acked;
          begun = w.begun;
          fits = w.fits;
          window = w.window;
          max_cack = w.max_cack;
          base = w.base;
          next = w.next;
          sent = w.sent;
        })
      ]

  pub with_mpr-IsSender : (a : Ack) → IsSender (with_mpr a pdc) anchor c s n
  with_mpr-IsSender a =
      if_both (λ q. IsSender q anchor c s n) a.is_cc _ _ (process_mpr-IsSender a.mpr a.cack_psn) w

-- uet_pds_process_mpr leaves the rest of the PDC.
process_mpr_frame :
    (pdc : Pdc) (m cack : ℕ)
    → process_mpr pdc m cack ≡ record pdc {
      peer_mp_range = (process_mpr pdc m cack).peer_mp_range;
      mpr_update_cack_psn = (process_mpr pdc m cack).mpr_update_cack_psn;
      mpr_update_valid = (process_mpr pdc m cack).mpr_update_valid;
    }
unfolding process_mpr
process_mpr_frame pdc m cack =
    elim (Bool-cases (pdc.mpr_update_valid && not (psn_after cack pdc.mpr_update_cack_psn))) [
      | inl e ↦ rw e refl
      | inr e ↦ rw e refl
    ]

pub with_mpr_frame :
    (a : Ack) (pdc : Pdc)
    → with_mpr a pdc ≡ record pdc {
      peer_mp_range = (with_mpr a pdc).peer_mp_range;
      mpr_update_cack_psn = (with_mpr a pdc).mpr_update_cack_psn;
      mpr_update_valid = (with_mpr a pdc).mpr_update_valid;
    }
with_mpr_frame a pdc = elim (Bool-cases a.is_cc) [
  | inl e ↦ rw e (process_mpr_frame pdc a.mpr a.cack_psn)
  | inr e ↦ rw e refl
]

pub established-IsSender :
    (a : Ack) (pdc : Pdc) (anchor c s n : ℕ)
    → IsSender pdc anchor c s n
    → IsSender (established_pdc a pdc) anchor c s n
established-IsSender a pdc anchor c s n w = elim (Bool-cases (is_syn pdc.state)) [
  | inr e ↦ subst (λ q. IsSender q anchor c s n) (at e) w
  | inl e ↦
      subst (λ q. IsSender q anchor c s n) (at e)
        (record {
          small = w.small;
          near = w.near;
          acked = w.acked;
          begun = w.begun;
          fits = w.fits;
          window = w.window;
          max_cack = w.max_cack;
          base = w.base;
          next = w.next;
          sent = w.sent;
        })
]
  where
    at :
        {b : Bool}
        → is_syn pdc.state ≡ b
        → (if b then record pdc { state = established; dpdcid = a.spdcid } else pdc)
          ≡ established_pdc a pdc
    at e = sym (
        ap (λ (x : Bool). if x then record pdc { state = established; dpdcid = a.spdcid } else pdc)
          e)

acked_at-bit : (bm : Bitmap ℕ) (pkts : Memory) (k : ℕ) → acked_at bm pkts k ≡ true → bit bm k ≡ true
acked_at-bit bm pkts k = go (bit bm k) (datum bm k)
  where
    go : (b : Bool) (d : Option ℕ) → acked_of pkts b d ≡ true → b ≡ true
    go b none e = absurd (false≢true e)
    go true (some p) e = refl
    go false (some p) e = e

-- A shift of the window by the acknowledged packets at its base.
pub Advances-IsSender :
    (w out : World) (anchor c s n m : ℕ)
    → IsSender w.pdc anchor c s n
    → m ≤ 128
    → Advances w out m
    → IsSender out.pdc anchor c (s + m) n
Advances-IsSender w out anchor c s n m i h a =
    subst (λ pdc. IsSender pdc anchor c (s + m) n) (sym a.pdc)
      (record {
        small = i.small;
        near = i.near;
        acked = i.acked;
        begun = not_past;
        fits = omega (arith, i.fits);
        window = a.still;
        max_cack = i.max_cack;
        base = ap (λ (x : ℕ). add32 x m) i.base ∙ omega arith;
        next = i.next;
        sent = λ k l b. elim (dec_lt (k + m) w.pdc.tx_bm.size) [
          | yes p ↦ omega (
            arith,
            i.sent (k + m) (omega (arith, p, i.window.full_size))
                (sym (rw (lt→ltb (k + m) w.pdc.tx_bm.size p) at (a.bits k l)) ∙ b),
          )
          | no p ↦ absurd (
              false≢true (
                sym (rw (ltb-false (k + m) w.pdc.tx_bm.size (omega (arith, p))) at (a.bits k l))
                ∙ b))
        ];
      })
  where
    not_past : s + m ≤ n
    not_past = elim (ℕ_discrete m 0) [
      | yes z ↦ omega (arith, z, i.begun)
      | no nz ↦ omega (
        arith,
        nz,
        i.sent (m - 1) (omega (arith, nz, h))
            (acked_at-bit w.pdc.tx_bm w.pkts (m - 1) (a.run (m - 1) (omega (arith, nz)))),
      )
    ]
