-- ===== src/Dev/Ring/Poll.antt =====
-- What a poll by the guest takes out of the ring (uet_ref_poll_cq of uet_vfio/provider/uet_ref.c).
use uet_ref_prov.Base.{
  ℕ, zero, suc, ◌+◌, ◌<◌, ◌≡◌, refl, ap, ◌⊎◌, inl, inr, none, some, List, [], ◌∷◌, arith, subst,
}
use uet_ref_prov.Dev.Ring.{Cqe, CqRing, cq_peek, cq_advance, poll_loop}
use uet_ref_prov.Dev.Ring.Laps.{lap}
use uet_ref_prov.Dev.Ring.Fifo.{IsRing, cq_peek-IsRing, cq_advance-IsRing}

-- The `k` completions from number `g` on, in order, with the phases of their laps.
unfoldable pub posted_from : (ℕ → Cqe) → (entries g k : ℕ) → List Cqe
posted_from log entries g zero = []
posted_from log entries g (suc k) =
    (record (log g) { valid = lap entries g }) ∷ posted_from log entries (g + 1) k

-- A poll of at most `num` that took `k` completions: all that there were, or `num`.
pub record Polled (laps p g c num entries : ℕ) (log : ℕ → Cqe) (r : List Cqe × CqRing)
    : Type 0 where
  pub k : ℕ
  pub most : (k ≡ num) ⊎ (k < num × g + k ≡ p)
  pub found : r.0 ≡ posted_from log entries g k
  pub ring : IsRing r.1 laps p (g + k) c log

-- Where there is none, the loop ends;
nothing :
    (q : CqRing) (laps p g c num : ℕ) (log : ℕ → Cqe)
    → IsRing q laps p g c log
    → g ≡ p
    → cq_peek q ≡ none
    → Polled laps p g c (suc num) q.entries log (poll_loop (suc num) q)
unfolding poll_loop posted_from
nothing q laps p g c num log w e peek = rw peek (record {
  k = 0;
  most = inr (omega arith, omega (arith, e));
  found = refl;
  ring = subst (λ (x : ℕ). IsRing q laps p x c log) (omega arith) w;
})

-- where there is one, it takes it and goes on.
one_more :
    (q : CqRing) (laps p g c num : ℕ) (log : ℕ → Cqe)
    → cq_peek q ≡ some (record (log g) { valid = lap q.entries g })
    → Polled laps p (g + 1) c num q.entries log (poll_loop num (cq_advance q))
    → Polled laps p g c (suc num) q.entries log (poll_loop (suc num) q)
unfolding poll_loop posted_from
one_more q laps p g c num log peek r = rw peek (record {
  k = suc r.k;
  most = elim r.most [
    | inl all ↦ inl (ap suc all)
    | inr (few, last) ↦ inr (omega (arith, few), omega (arith, last))
  ];
  found = ap (λ (xs : List Cqe). (record (log g) { valid = lap q.entries g }) ∷ xs) r.found;
  ring =
      subst (λ (x : ℕ). IsRing (poll_loop num (cq_advance q)).1 laps p x c log) (omega arith)
        r.ring;
})

-- The loop of a poll for at most `num` takes the completions that were posted first of those not taken, in order,
-- until there are none left or it has `num`, and keeps the ring.
pub poll_loop-Polled :
    (num : ℕ) (q : CqRing) (laps p g c : ℕ) (log : ℕ → Cqe)
    → IsRing q laps p g c log
    → Polled laps p g c num q.entries log (poll_loop num q)
unfolding poll_loop posted_from cq_advance
poll_loop-Polled zero q laps p g c log w = record {
  k = 0;
  most = inl refl;
  found = refl;
  ring = subst (λ (x : ℕ). IsRing q laps p x c log) (omega arith) w;
}
poll_loop-Polled (suc num) q laps p g c log w = elim (cq_peek-IsRing q laps p g c log w) [
  | inl (lt, peek) ↦ one_more q laps p g c num log peek (
      poll_loop-Polled num (cq_advance q) laps p (g + 1) c log
        (cq_advance-IsRing q laps p g c log w lt))
  | inr (e, peek) ↦ nothing q laps p g c num log w e peek
]
