-- ===== src/Dev/Jobs/Lookup.antt =====
-- The search of uet_vfio/uet_dev_objs.c for a job key by its value.
use uet_ref_prov.Base.{
  ℕ, zero, suc, ◌+◌, ◌<◌, ◌≤◌, ◌≡◌, ◌≢◌, refl, ap, Bool, true, false, ◌&&◌, none, some, List, [],
  ◌∷◌, ◌==◌, if◌then◌else◌, get_or, length, arith, ==_iff, ==_false, all_below, all_below_lem,
}
use uet_ref_prov.Dev.State.{Jkey, zero_jkey}
use uet_ref_prov.Dev.Jobs.{jkey_value, answers_key, jkey_find}

tagged : ℕ → Bool
tagged h = jkey_value h == 0x4a000000 + h

all_tagged : all_below 257 tagged ≡ true
unfolding all_below tagged jkey_value
all_tagged = refl

-- The tag leaves the handle alone,
jkey_value-plus : (h : ℕ) → h ≤ 256 → jkey_value h ≡ 0x4a000000 + h
unfolding tagged
jkey_value-plus h k =
    (==_iff (jkey_value h) (0x4a000000 + h)).0
      (all_below_lem 257 tagged all_tagged h (omega (arith, k)))

-- so keys of two handles differ.
jkey_value-ne : (a b : ℕ) → a ≤ 256 → b ≤ 256 → a ≢ b → jkey_value a ≢ jkey_value b
jkey_value-ne a b ha hb ne e = ne (omega (arith, e, jkey_value-plus a ha, jkey_value-plus b hb))

and_false : (a b : Bool) → (a && false && b) ≡ false
and_false true b = refl
and_false false b = refl

and_true : (a : Bool) → (a && true) ≡ a
and_true true = refl
and_true false = refl

misses :
    (k pdn i : ℕ) (x : Jkey)
    → k < 256
    → i < 256
    → k ≢ i
    → answers_key (jkey_value (k + 1)) pdn i x ≡ false
misses k pdn i x hk hi ne =
    rw
      (==_false (jkey_value (i + 1)) (jkey_value (k + 1)) (
        jkey_value-ne (i + 1) (k + 1) (omega (arith, hi)) (omega (arith, hk))
          (λ e. ne (omega (arith, e)))))
      (and_false x.used (x.pdn == pdn))

-- A key of an earlier slot is not found later.
jkey_find-none :
    (k pdn i : ℕ) (ks : List Jkey)
    → k < i
    → i + length ks ≤ 256
    → jkey_find (jkey_value (k + 1)) pdn i ks ≡ none
jkey_find-none k pdn i [] h b = refl
jkey_find-none k pdn i (x ∷ ks) h b =
    rw (misses k pdn i x (omega (arith, b, h)) (omega (arith, b)) (λ e. omega (arith, e, h)))
      (jkey_find-none k pdn (i + 1) ks (omega (arith, h)) (omega (arith, b)))

-- The search for the key of slot `n` looks at this slot alone.
pub jkey_find-slot :
    (pdn i n k : ℕ) (ks : List Jkey)
    → k ≡ i + n
    → n < length ks
    → i + length ks ≤ 256
    → jkey_find (jkey_value (k + 1)) pdn i ks ≡ (
        if (get_or ks n zero_jkey).used && ((get_or ks n zero_jkey).pdn == pdn)
        then some (get_or ks n zero_jkey).job_handle
        else none)
jkey_find-slot pdn i n k [] e h b = absurd (omega (arith, h))
jkey_find-slot pdn i zero k (x ∷ ks) e h b =
    rw
      (
        jkey_find-none k pdn (i + 1) ks (omega (arith, e)) (omega (arith, b)),
        (==_iff (jkey_value (i + 1)) (jkey_value (k + 1))).1
            (ap jkey_value {x = i + 1} {y = k + 1} (omega (arith, e))),
      )
      (ap (λ c. if c && (x.pdn == pdn) then some x.job_handle else none) (and_true x.used))
jkey_find-slot pdn i (suc n) k (x ∷ ks) e h b =
    rw (misses k pdn i x (omega (arith, e, h, b)) (omega (arith, b)) (λ q. omega (arith, q, e)))
      (jkey_find-slot pdn (i + 1) n k ks (omega (arith, e)) (omega (arith, h)) (omega (arith, b)))
