-- ===== src/Sec/Rotation/Cache.antt =====
-- The cache of the three effective keys against keys that are computed afresh.
use native.Mathlib.Decide.{ℕ_discrete}
use uet_ref_prov.Base.{
  ℕ, zero, suc, ◌+◌, ◌≤◌, ◌≡◌, ◌≢◌, ◌⊎◌, refl, sym, ap, ◌∙◌, subst, inl, inr, Bool, true, false,
  not, pos, ◌==◌, if◌then◌else◌, Bool-cases, arith, ==_iff, ==_false,
}
use uet_ref_prov.Sec.Rotation.{
  Family, KeySlot, key_prev, key_cur, key_next, Key, Sd, rot_now, effective_key, before,
  refresh_keys, which_key, sd_key,
}

-- The key of a slot of the cache at rotation `rot`, computed afresh.
abbrev pub fresh_key : (Family → ℕ → Key) → Family → ℕ → KeySlot → Key
fresh_key key fam rot key_prev = effective_key key fam (before rot)
fresh_key key fam rot key_cur = effective_key key fam (pos rot)
fresh_key key fam rot key_next = effective_key key fam (pos (rot + 1))

-- The cache is not built yet, or it holds the keys of the rotation `cache_rot`.
abbrev pub IsCoherent : Sd → Type 0
IsCoherent sd =
    (sd.cache_rot ≡ 0)
    ⊎ ((fam : Family) (slot : KeySlot)
        → sd.eff_key fam slot ≡ fresh_key sd.key fam sd.cache_rot slot)

pub before_lem : (rot r : ℕ) → rot ≡ r + 1 → before rot ≡ pos r
before_lem zero r e = absurd (omega arith)
before_lem (suc rot) r e = ap (λ k. pos k) (omega arith)

refresh-rebuilt :
    (sd : Sd) (rot : ℕ)
    → rot ≢ sd.cache_rot + 1
    → (fam : Family) (slot : KeySlot)
    → (refresh_keys sd rot).eff_key fam slot ≡ fresh_key sd.key fam rot slot
unfolding refresh_keys
refresh-rebuilt sd rot ne fam key_prev = rw (==_false rot (sd.cache_rot + 1) ne)
refresh-rebuilt sd rot ne fam key_cur = rw (==_false rot (sd.cache_rot + 1) ne)
refresh-rebuilt sd rot ne fam key_next = rw (==_false rot (sd.cache_rot + 1) ne)

refresh-shifted :
    (sd : Sd) (rot : ℕ)
    → rot ≡ sd.cache_rot + 1
    → ((fam : Family) (slot : KeySlot)
        → sd.eff_key fam slot ≡ fresh_key sd.key fam sd.cache_rot slot)
    → (fam : Family) (slot : KeySlot)
    → (refresh_keys sd rot).eff_key fam slot ≡ fresh_key sd.key fam rot slot
unfolding refresh_keys
refresh-shifted sd rot e c fam key_prev =
    rw ((==_iff rot (sd.cache_rot + 1)).1 e, before_lem rot sd.cache_rot e) (c fam key_cur)
refresh-shifted sd rot e c fam key_cur =
    rw ((==_iff rot (sd.cache_rot + 1)).1 e)
      (c fam key_next ∙ ap (λ k. effective_key sd.key fam (pos k)) (sym e))
refresh-shifted sd rot e c fam key_next = rw ((==_iff rot (sd.cache_rot + 1)).1 e)

refresh-Coherent :
    (sd : Sd) (rot : ℕ)
    → IsCoherent sd
    → 2 ≤ rot
    → (fam : Family) (slot : KeySlot)
    → (refresh_keys sd rot).eff_key fam slot ≡ fresh_key sd.key fam rot slot
refresh-Coherent sd rot (inl z) h = refresh-rebuilt sd rot (omega arith)
refresh-Coherent sd rot (inr c) h = elim (ℕ_discrete rot (sd.cache_rot + 1)) [
  | yes e ↦ refresh-shifted sd rot e c
  | no ne ↦ refresh-rebuilt sd rot ne
]

refresh-same :
    (sd : Sd) (rot : ℕ)
    → ((refresh_keys sd rot).key ≡ sd.key) × ((refresh_keys sd rot).cache_rot ≡ rot)
unfolding refresh_keys
refresh-same sd rot = elim (Bool-cases (rot == sd.cache_rot + 1)) [
  | inl e ↦ rw e (refl, refl)
  | inr e ↦ rw e (refl, refl)
]

-- What is claimed of the key that is returned, and of the domain.
IsFresh : Sd → Family → ℕ → KeySlot → Key × Sd → Type 0
IsFresh sd fam rot which r =
    (r.0 ≡ fresh_key sd.key fam rot which) × (r.1.key ≡ sd.key) × IsCoherent r.1

built-IsFresh :
    (sd s : Sd) (fam : Family) (rot : ℕ) (which : KeySlot)
    → s.key ≡ sd.key
    → s.cache_rot ≡ rot
    → ((fam : Family) (slot : KeySlot) → s.eff_key fam slot ≡ fresh_key sd.key fam rot slot)
    → IsFresh sd fam rot which (s.eff_key fam which, s)
unfolding IsFresh
built-IsFresh sd s fam rot which k r c = (
  c fam which,
  k,
  inr (λ fam slot.
      c fam slot
      ∙ ap (λ key. fresh_key key fam rot slot) (sym k)
      ∙ ap (λ n. fresh_key s.key fam n slot) (sym r)),
)

-- The key and the domain, by whether rotation is on and the cache is current.
abbrev by_tests : Sd → Family → ℕ → ℕ → Bool → Bool → Key × Sd
by_tests sd fam an now_ms on current =
    if not on
    then (sd.key fam an, sd)
    else let s = if current then sd else refresh_keys sd (rot_now now_ms) in
      (s.eff_key fam (which_key an now_ms), s)

sd_key-by_tests :
    (sd : Sd) (fam : Family) (an now_ms : ℕ)
    → sd_key sd fam an now_ms
      ≡ by_tests sd fam an now_ms sd.rotation_enabled (rot_now now_ms == sd.cache_rot)
unfolding sd_key
sd_key-by_tests sd fam an now_ms = refl

sd_key-IsFresh :
    (sd : Sd) (fam : Family) (an now_ms : ℕ)
    → sd.rotation_enabled ≡ true
    → IsCoherent sd
    → 2 ≤ rot_now now_ms
    → IsFresh sd fam (rot_now now_ms) (which_key an now_ms) (sd_key sd fam an now_ms)
sd_key-IsFresh sd fam an now_ms on c h =
    subst (IsFresh sd fam (rot_now now_ms) (which_key an now_ms))
      (sym (
        sd_key-by_tests sd fam an now_ms
        ∙ ap (λ b. by_tests sd fam an now_ms b (rot_now now_ms == sd.cache_rot)) on))
      (elim (Bool-cases (rot_now now_ms == sd.cache_rot)) [
        | inl e ↦ resume true e (cached ((==_iff (rot_now now_ms) sd.cache_rot).0 e) c)
        | inr e ↦ resume false e (
            built-IsFresh sd (refresh_keys sd (rot_now now_ms)) fam (rot_now now_ms)
              (which_key an now_ms) (refresh-same sd (rot_now now_ms)).0
              (refresh-same sd (rot_now now_ms)).1 (refresh-Coherent sd (rot_now now_ms) c h))
      ])
  where
    resume :
        (b : Bool)
        → (rot_now now_ms == sd.cache_rot) ≡ b
        → IsFresh sd fam (rot_now now_ms) (which_key an now_ms) (by_tests sd fam an now_ms true b)
        → IsFresh sd fam
            (rot_now now_ms)
            (which_key an now_ms)
            (by_tests sd fam an now_ms true (rot_now now_ms == sd.cache_rot))
    resume b e =
        subst
          (λ t.
            IsFresh sd fam (rot_now now_ms) (which_key an now_ms)
              (by_tests sd fam an now_ms true t))
          (sym e)

    cached :
        rot_now now_ms ≡ sd.cache_rot
        → IsCoherent sd
        → IsFresh sd fam
            (rot_now now_ms)
            (which_key an now_ms)
            (sd.eff_key fam (which_key an now_ms), sd)
    cached e (inl z) = absurd (omega arith)
    cached e (inr f) =
        built-IsFresh sd sd fam (rot_now now_ms) (which_key an now_ms) refl (sym e)
          (λ fam slot. f fam slot ∙ ap (λ n. fresh_key sd.key fam n slot) (sym e))

-- With rotation on, and from the second rotation since the epoch of the clock on,
-- `uet_sec_sd_key` returns the key that would be computed afresh for the slot that it chooses,
-- keeps the key pool, and leaves the cache coherent.
pub sd_key_lem :
    (sd : Sd) (fam : Family) (an now_ms : ℕ)
    → sd.rotation_enabled ≡ true
    → IsCoherent sd
    → 2 ≤ rot_now now_ms
    → ((sd_key sd fam an now_ms).0 ≡ fresh_key sd.key fam (rot_now now_ms) (which_key an now_ms))
      × ((sd_key sd fam an now_ms).1.key ≡ sd.key)
      × IsCoherent (sd_key sd fam an now_ms).1
unfolding IsFresh
sd_key_lem sd fam an now_ms on c h = sd_key-IsFresh sd fam an now_ms on c h
