-- ===== src/Dev/Ring/Fifo.antt =====
-- The ring of a completion queue is a queue: uet_dev_cq_post of uet_vfio/uet_dev_data.c puts in what
-- uet_ref_cq_peek of uet_vfio/provider/uet_ref.c takes out, in order, however often the indices wrap.
use native.Mathlib.Nat.{mod-eq_of_lt, add-mod_right}
use uet_ref_prov.Base.{
  ℕ, ◌+◌, ◌-◌, ◌*◌, ◌%◌, ◌^◌, ◌<◌, ◌≤◌, ◌≡◌, ◌≢◌, refl, sym, ap, ◌∙◌, Bool, true, false, none, some,
  ◌==◌, leb, leb-false, leb-true, leb→le, if◌then◌else◌, arith, Bool-cases, ==_iff, ==_ne, ==_false,
  inl, inr, ◌⊎◌,
}
use uet_ref_prov.Dev.Slots.{inc32}
use uet_ref_prov.Dev.State.{cq_max_entries}
use uet_ref_prov.Dev.Ring.{Cqe, CqRing, store, toggle, cq_post, cq_peek, cq_advance, cq_doorbell}
use uet_ref_prov.Dev.Ring.Laps.{mod_word, other_slot, lap, lap_next, lap_first, toggle-lap}

-- A ring whose size divides 2 ^ 32, `p` completions after its creation, of which the guest has taken
-- `g` and told the device of `c`; `log` is what was posted.
pub record IsRing (q : CqRing) (laps p g c : ℕ) (log : ℕ → Cqe) : Type 0 where
  pub live : q.live ≡ true
  pub whole : q.entries * laps ≡ 2 ^ 32
  pub some_entries : 0 < q.entries
  pub few_entries : q.entries ≤ cq_max_entries
  pub prod : q.prod ≡ p % 2 ^ 32
  pub cons : q.cons ≡ c % 2 ^ 32
  pub guest_cons : q.guest_cons ≡ g % 2 ^ 32
  pub told : c ≤ g
  pub taken : g ≤ p
  pub room : p ≤ c + q.entries
  pub phase : q.phase ≡ lap q.entries p
  pub guest_phase : q.guest_phase ≡ lap q.entries g
  pub stored :
      (n : ℕ)
      → n < p
      → p ≤ n + q.entries
      → q.mem (n % q.entries) ≡ record (log n) { valid = lap q.entries n }
  pub fresh : (n : ℕ) → p ≤ n → n < q.entries → (q.mem n).valid ≡ 0

-- The slot and the phase of an index that is a word.
word_slot :
    {q : CqRing} {laps p g c : ℕ} {log : ℕ → Cqe} (w : IsRing q laps p g c log) (n : ℕ)
    → n % 2 ^ 32 % q.entries ≡ n % q.entries
word_slot {q = q} {laps = laps} w n = mod_word q.entries laps n w.whole

inc32-word : (n : ℕ) → inc32 (n % 2 ^ 32) ≡ (n + 1) % 2 ^ 32
unfolding inc32
inc32-word n = omega arith

toggle_word :
    {q : CqRing} {laps p g c : ℕ} {log : ℕ → Cqe} (w : IsRing q laps p g c log) (n : ℕ)
    → toggle (inc32 (n % 2 ^ 32)) q.entries (lap q.entries n) ≡ lap q.entries (n + 1)
toggle_word {q = q} w n =
    ap (λ x. if x == 0 then 1 - lap q.entries n else lap q.entries n)
      (ap (λ (x : ℕ). x % q.entries) (inc32-word n) ∙ word_slot w (n + 1))
    ∙ toggle-lap q.entries n w.some_entries

-- `prod - cons` of the words is the number of completions that the device counts as untaken.
depth : (p c : ℕ) → c ≤ p → p ≤ c + 4096 → (p % 2 ^ 32 + 2 ^ 32 - c % 2 ^ 32) % 2 ^ 32 ≡ p - c
depth p c h k = omega arith

-- The next free slot is not one that the guest would take.
stale :
    {q : CqRing} {laps p g c : ℕ} {log : ℕ → Cqe} (w : IsRing q laps p g c log)
    → (q.mem (p % q.entries)).valid ≢ lap q.entries p
stale {q = q} {p = p} {log = log} w same = elim (side p q.entries) [
  | inl first ↦ omega (
    arith,
    same,
    lap_first q.entries p first,
    w.fresh p (omega arith) first,
    ap (λ (x : ℕ). (q.mem x).valid) (mod-eq_of_lt first),
  )
  | inr (n, e) ↦ lap_next q.entries n w.some_entries (
      ap (lap q.entries) (sym e)
      ∙ sym same
      ∙ ap (λ (x : ℕ). (q.mem x).valid)
          (ap (λ (x : ℕ). x % q.entries) e ∙ add-mod_right n q.entries)
      ∙ ap (λ (x : Cqe). x.valid)
          (w.stored n (omega (arith, e, w.some_entries)) (omega (arith, e))))
]
  where
    side : (a b : ℕ) → (a < b) ⊎ ((n : ℕ) × (a ≡ n + b))
    side a b = elim (Bool-cases (leb b a)) [
      | inl h ↦ inr (a - b, omega (arith, leb→le b a h))
      | inr h ↦ inl (ground arith)
    ]

-- The guest's cursor is on the slot of the number that it has taken.
guest_slot :
    {q : CqRing} {laps p g c : ℕ} {log : ℕ → Cqe} (w : IsRing q laps p g c log)
    → q.guest_cons % q.entries ≡ g % q.entries
guest_slot {q = q} {g = g} w = ap (λ (x : ℕ). x % q.entries) w.guest_cons ∙ word_slot w g

peek-slot :
    (q : CqRing) (s : ℕ)
    → q.guest_cons % q.entries ≡ s
    → cq_peek q ≡ (if (q.mem s).valid == q.guest_phase then some (q.mem s) else none)
unfolding cq_peek
peek-slot q s e =
    ap (λ (x : ℕ). if (q.mem x).valid == q.guest_phase then some (q.mem x) else none) e

-- Where the guest has taken all, it finds nothing,
peek_none :
    {q : CqRing} {laps p g c : ℕ} {log : ℕ → Cqe} (w : IsRing q laps p g c log)
    → g ≡ p
    → cq_peek q ≡ none
peek_none {q = q} {p = p} {g = g} w e =
    peek-slot q (p % q.entries) (guest_slot w ∙ ap (λ (x : ℕ). x % q.entries) e)
    ∙ ap (λ (x : Bool). if x then some (q.mem (p % q.entries)) else none)
        (==_false _ _ (λ same. stale w (same ∙ w.guest_phase ∙ ap (lap q.entries) e)))

-- and otherwise what was posted first of the rest.
peek_some :
    {q : CqRing} {laps p g c : ℕ} {log : ℕ → Cqe} (w : IsRing q laps p g c log)
    → g < p
    → cq_peek q ≡ some (record (log g) { valid = lap q.entries g })
peek_some {q = q} {p = p} {g = g} {log = log} w lt =
    peek-slot q (g % q.entries) (guest_slot w)
    ∙ ap (λ (x : Bool). if x then some (q.mem (g % q.entries)) else none)
        ((==_iff _ _).1 (ap (λ (x : Cqe). x.valid) at_g ∙ sym w.guest_phase))
    ∙ ap some at_g
  where
    at_g : q.mem (g % q.entries) ≡ record (log g) { valid = lap q.entries g }
    at_g = w.stored g lt (omega (arith, w.told, w.room))

-- In a ring with `p` completions posted and `g` taken, the guest finds completion `g`, with the phase of
-- its lap, where `g < p`, and nothing where it has taken all.
pub cq_peek-IsRing :
    (q : CqRing) (laps p g c : ℕ) (log : ℕ → Cqe)
    → IsRing q laps p g c log
    → ((g < p) × (cq_peek q ≡ some (record (log g) { valid = lap q.entries g })))
      ⊎ ((g ≡ p) × (cq_peek q ≡ none))
cq_peek-IsRing q laps p g c log w = elim (Bool-cases (g == p)) [
  | inl e ↦ inr ((==_iff g p).0 e, peek_none w ((==_iff g p).0 e))
  | inr e ↦ inl (less e, peek_some w (less e))
]
  where
    less : g == p ≡ false → g < p
    less e = omega (arith, w.taken, ==_ne g p e)

-- What the device counts.
counted :
    {q : CqRing} {laps p g c : ℕ} {log : ℕ → Cqe} (w : IsRing q laps p g c log)
    → (q.prod + 2 ^ 32 - q.cons) % 2 ^ 32 ≡ p - c
counted {q = q} {p = p} {c = c} w =
    rw (w.prod, w.cons)
      (depth p c (omega (arith, w.told, w.taken)) (omega (arith, w.room, w.few_entries)))

store-hit : (f : ℕ → Cqe) (s : ℕ) (x : Cqe) (j : ℕ) → j ≡ s → store f s x j ≡ x
store-hit f s x j e = ap (λ (t : Bool). if t then x else f j) ((==_iff j s).1 e)

store-miss : (f : ℕ → Cqe) (s : ℕ) (x : Cqe) (j : ℕ) → j ≢ s → store f s x j ≡ f j
store-miss f s x j ne = ap (λ (t : Bool). if t then x else f j) (==_false j s ne)

-- The slot that the device writes.
prod_slot :
    {q : CqRing} {laps p g c : ℕ} {log : ℕ → Cqe} (w : IsRing q laps p g c log)
    → q.prod % q.entries ≡ p % q.entries
prod_slot {q = q} {p = p} w = ap (λ (x : ℕ). x % q.entries) w.prod ∙ word_slot w p

-- Where the device counts fewer completions untaken than the ring has entries and the write of guest
-- memory is made, a post keeps the ring, with the completion behind the others that were posted.
pub cq_post-IsRing :
    (q : CqRing) (laps p g c : ℕ) (log : ℕ → Cqe) (e : Cqe)
    → IsRing q laps p g c log
    → p < c + q.entries
    → IsRing (cq_post true q e) laps (p + 1) g c (store log p e)
unfolding cq_post
cq_post-IsRing q laps p g c log e w h =
    rw (w.live, leb-false q.entries ((q.prod + 2 ^ 32 - q.cons) % 2 ^ 32) space)
      (record {
        live = refl;
        whole = w.whole;
        some_entries = w.some_entries;
        few_entries = w.few_entries;
        prod = ap inc32 w.prod ∙ inc32-word p;
        cons = w.cons;
        guest_cons = w.guest_cons;
        told = w.told;
        taken = omega (arith, w.taken);
        room = omega (arith, h);
        phase = rw (w.prod, w.phase) (toggle_word w p);
        guest_phase = w.guest_phase;
        stored = stored;
        fresh = fresh;
      })
  where
    space : (q.prod + 2 ^ 32 - q.cons) % 2 ^ 32 < q.entries
    space = rw (counted w) (omega (arith, h, w.told, w.taken))

    before : (n : ℕ) → n < p + 1 → (n == p) ≡ false → n < p
    before n lt ne = omega (arith, lt, ==_ne n p ne)

    stored :
        (n : ℕ)
        → n < p + 1
        → p + 1 ≤ n + q.entries
        → store q.mem (q.prod % q.entries) (record e { valid = q.phase }) (n % q.entries)
          ≡ record (store log p e n) { valid = lap q.entries n }
    stored n lt near = elim (Bool-cases (n == p)) [
      | inl same ↦
          store-hit q.mem (q.prod % q.entries) (record e { valid = q.phase }) (n % q.entries)
            (ap (λ (x : ℕ). x % q.entries) ((==_iff n p).0 same) ∙ sym (prod_slot w))
          ∙ ap (λ (v : ℕ). record e { valid = v })
              (w.phase ∙ ap (lap q.entries) (sym ((==_iff n p).0 same)))
          ∙ ap (λ (x : Cqe). record x { valid = lap q.entries n })
              (sym (store-hit log p e n ((==_iff n p).0 same)))
      | inr other ↦
          store-miss q.mem (q.prod % q.entries) (record e { valid = q.phase }) (n % q.entries)
            (λ at.
              other_slot q.entries n p (before n lt other) (omega (arith, near)) (at ∙ prod_slot w))
          ∙ w.stored n (before n lt other) (omega (arith, near))
          ∙ ap (λ (x : Cqe). record x { valid = lap q.entries n })
              (sym (store-miss log p e n (==_ne n p other)))
    ]

    fresh :
        (n : ℕ)
        → p + 1 ≤ n
        → n < q.entries
        → (store q.mem (q.prod % q.entries) (record e { valid = q.phase }) n).valid ≡ 0
    fresh n far lt =
        ap (λ (x : Cqe). x.valid)
          (store-miss q.mem (q.prod % q.entries) (record e { valid = q.phase }) n
            (λ at.
              other_slot q.entries p n (omega (arith, far)) (omega (arith, lt))
                (sym (mod-eq_of_lt lt ∙ at ∙ prod_slot w))))
        ∙ w.fresh n (omega (arith, far)) lt

-- Where it counts as many as the ring has entries, a post is dropped: only the counter of overruns
-- changes.
cq_post-full :
    (wrote : Bool) (q : CqRing) (laps p g c : ℕ) (log : ℕ → Cqe) (e : Cqe)
    → IsRing q laps p g c log
    → p ≡ c + q.entries
    → cq_post wrote q e ≡ (record q { overruns = inc32 q.overruns })
unfolding cq_post
cq_post-full wrote q laps p g c log e w h =
    rw (w.live, leb-true q.entries ((q.prod + 2 ^ 32 - q.cons) % 2 ^ 32) full) refl
  where
    full : q.entries ≤ (q.prod + 2 ^ 32 - q.cons) % 2 ^ 32
    full = rw (counted w) (omega (arith, h))

-- Where the guest has not taken all, uet_ref_cq_advance keeps the ring, with one more completion taken.
pub cq_advance-IsRing :
    (q : CqRing) (laps p g c : ℕ) (log : ℕ → Cqe)
    → IsRing q laps p g c log
    → g < p
    → IsRing (cq_advance q) laps p (g + 1) c log
unfolding cq_advance
cq_advance-IsRing q laps p g c log w h = record {
  live = w.live;
  whole = w.whole;
  some_entries = w.some_entries;
  few_entries = w.few_entries;
  prod = w.prod;
  cons = w.cons;
  guest_cons = ap inc32 w.guest_cons ∙ inc32-word g;
  told = omega (arith, w.told);
  taken = omega (arith, h);
  room = w.room;
  phase = w.phase;
  guest_phase = rw (w.guest_cons, w.guest_phase) (toggle_word w g);
  stored = w.stored;
  fresh = w.fresh;
}

-- The guest tells the device how far it is.
pub cq_doorbell-IsRing :
    (arm : Bool) (q : CqRing) (laps p g c : ℕ) (log : ℕ → Cqe)
    → IsRing q laps p g c log
    → IsRing (cq_doorbell arm q) laps p g g log
unfolding cq_doorbell
cq_doorbell-IsRing arm q laps p g c log w = record {
  live = w.live;
  whole = w.whole;
  some_entries = w.some_entries;
  few_entries = w.few_entries;
  prod = w.prod;
  cons = w.guest_cons;
  guest_cons = w.guest_cons;
  told = omega arith;
  taken = w.taken;
  room = omega (arith, w.room, w.told);
  phase = w.phase;
  guest_phase = w.guest_phase;
  stored = w.stored;
  fresh = w.fresh;
}
