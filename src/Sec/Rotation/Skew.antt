-- ===== src/Sec/Rotation/Skew.antt =====
-- Sender and receiver with clocks that are apart.
use native.Mathlib.Decide.{dec_lt, ℕ_discrete}
use uet_ref_prov.Base.{
  ℕ, ◌+◌, ◌-◌, ◌*◌, ◌/◌, ◌%◌, ◌≤◌, ◌≡◌, sym, ap, ◌∙◌, true, not, pos, if◌then◌else◌, arith, ==_iff,
  ==_false, lt→ltb, ltb-false,
}
use uet_ref_prov.Sec.Rotation.{
  Family, Key, Sd, rot_now, into_ms, effective_key, which_key, sd_key, tx_an,
}
use uet_ref_prov.Sec.Rotation.Cache.{fresh_key, IsCoherent, before_lem, sd_key_lem}

-- The receiver at `r` looks for the AN of rotation `rot_now s`.
pub chosen_key :
    (key : Family → ℕ → Key) (fam : Family) (s r : ℕ)
    → r ≤ s + 2000
    → s ≤ r + 8000
    → fresh_key key fam (rot_now r) (which_key (rot_now s % 2) r)
      ≡ effective_key key fam (pos (rot_now s))
unfolding rot_now into_ms
chosen_key key fam s r after ahead = elim (ℕ_discrete (s / 10000) (r / 10000)) [
  | yes e ↦
      rw ((==_iff (s / 10000 % 2) (r / 10000 % 2)).1 (ap (λ q. q % 2) e))
        (ap (λ q. effective_key key fam (pos q)) (sym e))
  | no ne ↦ elim (dec_lt s r) [
    | yes p ↦
        rw
          (
            ==_false (s / 10000 % 2) (r / 10000 % 2) (omega arith),
            lt→ltb (r - r / 10000 * 10000) 2000 (omega arith),
          )
          (ap (effective_key key fam) (before_lem (r / 10000) (s / 10000) (omega arith)))
    | no p ↦
        rw
          (
            ==_false (s / 10000 % 2) (r / 10000 % 2) (omega arith),
            ltb-false (r - r / 10000 * 10000) 2000 (omega arith),
          )
          (ap (λ q. effective_key key fam (pos q)) {x = r / 10000 + 1} {y = s / 10000}
            (omega arith))
  ]
]

pub tx_an_lem :
    (sd : Sd) (now_ms : ℕ) → sd.rotation_enabled ≡ true → tx_an sd now_ms ≡ rot_now now_ms % 2
unfolding tx_an
tx_an_lem sd now_ms on = ap (λ b. if not b then sd.an else rot_now now_ms % 2) on

pub rot_now-le : (t : ℕ) → 20000 ≤ t → 2 ≤ rot_now t
unfolding rot_now
rot_now-le t h = omega arith

-- A sender and a receiver with rotation on, the same key pool and coherent caches use the same key
-- for a packet, where the receiver's clock is at most 2 s after the sender's and at most 8 s before
-- it, and both are 20 s or more past 0.
pub skew_lem :
    (sender receiver : Sd) (fam : Family) (s r : ℕ)
    → sender.rotation_enabled ≡ true
    → receiver.rotation_enabled ≡ true
    → sender.key ≡ receiver.key
    → IsCoherent sender
    → IsCoherent receiver
    → 20000 ≤ s
    → 20000 ≤ r
    → r ≤ s + 2000
    → s ≤ r + 8000
    → (sd_key receiver fam (tx_an sender s) r).0 ≡ (sd_key sender fam (tx_an sender s) s).0
skew_lem sender receiver fam s r on on' pool c c' hs hr after ahead = rw (tx_an_lem sender s on) (
    (sd_key_lem receiver fam (rot_now s % 2) r on' c' (rot_now-le r hr)).0
    ∙ chosen_key receiver.key fam s r after ahead
    ∙ ap (λ key. effective_key key fam (pos (rot_now s))) (sym pool)
    ∙ sym (chosen_key sender.key fam s s (omega arith) (omega arith))
    ∙ sym (sd_key_lem sender fam (rot_now s % 2) s on c (rot_now-le s hs)).0)
