-- ===== src/Sec/Rotation.antt =====
-- uet_sec_sd.c: the rotation of the keys of a security domain by the wall clock. The clock's
-- reading in ms, `now_ms`, is an argument.
pub mod Cache
pub mod Skew
pub mod Nonce
use uet_ref_prov.Base.{
  leb, Option, none, some, ℕ, zero, suc, ◌+◌, ◌-◌, ◌*◌, ◌/◌, ◌%◌, ◌^◌, Bool, true, false, not, List,
  [], ◌∷◌, ℤ, pos, negsuc, ◌==◌, ltb, if◌then◌else◌, get_or, bit_xor,
}

-- UET_SEC_ROT_INTERVAL_MS, UET_SEC_ROT_GUARD_MS and UET_SEC_ROT_N
abbrev pub rot_interval_ms : ℕ
rot_interval_ms = 10000

abbrev pub rot_guard_ms : ℕ
rot_guard_ms = 2000

abbrev pub rot_n : ℕ
rot_n = 4

-- UET_SEC_FAM_V4 and UET_SEC_FAM_V6
pub data Family : Type 0 where
  v4 v6 : Family

-- UET_SEC_KEY_PREV, UET_SEC_KEY_CUR and UET_SEC_KEY_NEXT
pub data KeySlot : Type 0 where
  key_prev key_cur key_next : KeySlot

abbrev pub Key : Type 0
Key = List ℕ

-- `struct uet_sec_sd`: the fields of the rotation. The pool `key` is not written after its set-up.
pub record Sd : Type 0 where
  pub epoch : ℕ
  pub an : ℕ
  pub tx_counter : ℕ
  pub invoke_fatal_threshold : ℕ
  pub rotation_enabled : Bool
  pub tx_rot : ℕ
  pub key : Family → ℕ → Key
  pub cache_rot : ℕ
  pub eff_key : Family → KeySlot → Key

-- uet_sec_rot_now, and what it stores in `*into_ms`
unfoldable pub rot_now : ℕ → ℕ
rot_now now_ms = now_ms / rot_interval_ms

unfoldable pub into_ms : ℕ → ℕ
unfolding rot_now
into_ms now_ms = now_ms - rot_now now_ms * rot_interval_ms

-- uet_sec_wrap_const
abbrev wrap_const : Key
wrap_const =
    0x9e ∷ 0x37 ∷ 0x79 ∷ 0xb9 ∷ 0x7f ∷ 0x4a ∷ 0x7c ∷ 0x15 ∷ 0xf3 ∷ 0x9c ∷ 0xc0 ∷ 0x60 ∷ 0x5c ∷ 0xed
    ∷ 0xc8 ∷ 0x34 ∷ 0x10 ∷ 0x82 ∷ 0x27 ∷ 0x6b ∷ 0xf3 ∷ 0xa2 ∷ 0x72 ∷ 0x51 ∷ 0xec ∷ 0xdd ∷ 0x74
    ∷ 0x35 ∷ 0x21 ∷ 0xf8 ∷ 0x8e ∷ 0xa3 ∷ []

-- byte `i` of uet_sec_wrap_mix
pub wrap_mix_byte : ℕ → ℕ → ℕ
wrap_mix_byte gen i =
    bit_xor (bit_xor (get_or wrap_const i 0) (gen / 2 ^ (i % 8 * 8) % 2 ^ 8))
      ((gen + i) % 2 ^ 64 % 2 ^ 8)

-- `^=` of the mix with the bytes of a key from index `i` on; `n` bytes of the mix are left.
pub mix_key : ℕ → ℕ → ℕ → Key → Key
mix_key gen zero i bytes = bytes
mix_key gen (suc n) i [] = []
mix_key gen (suc n) i (b ∷ bytes) = bit_xor b (wrap_mix_byte gen i) ∷ mix_key gen n (i + 1) bytes

-- `r & (N - 1)` and `(uint64_t)(r / N)` of an `int64_t`
abbrev pub rot_slot : ℤ → ℕ
rot_slot (pos r) = r % rot_n
rot_slot (negsuc n) = rot_n - 1 - n % rot_n

abbrev pub rot_generation : ℤ → ℕ
rot_generation (pos r) = r / rot_n
rot_generation (negsuc n) = (2 ^ 64 - (n + 1) / rot_n) % 2 ^ 64

-- The key of rotation `r` that `uet_sec_sd_gen_key` computes for a family.
pub effective_key : (Family → ℕ → Key) → Family → ℤ → Key
effective_key key fam r = mix_key (rot_generation r) 32 0 (key fam (rot_slot r))

abbrev pub put_key : KeySlot → Key → (KeySlot → Key) → KeySlot → Key
put_key key_prev k keys key_prev = k
put_key key_prev k keys key_cur = keys key_cur
put_key key_prev k keys key_next = keys key_next
put_key key_cur k keys key_prev = keys key_prev
put_key key_cur k keys key_cur = k
put_key key_cur k keys key_next = keys key_next
put_key key_next k keys key_prev = keys key_prev
put_key key_next k keys key_cur = keys key_cur
put_key key_next k keys key_next = k

abbrev pub gen_key : Sd → ℤ → KeySlot → Sd
gen_key sd r which = record sd {
  eff_key = λ fam. put_key which (effective_key sd.key fam r) (sd.eff_key fam);
}

-- The shift of the keys by one rotation.
abbrev pub shift_keys : (KeySlot → Key) → KeySlot → Key
shift_keys keys key_prev = keys key_cur
shift_keys keys key_cur = keys key_next
shift_keys keys key_next = keys key_next

-- `(int64_t)rot - 1`
abbrev pub before : ℕ → ℤ
before zero = negsuc 0
before (suc r) = pos r

unfoldable pub refresh_keys : Sd → ℕ → Sd
refresh_keys sd rot =
    let keys =
      if rot == sd.cache_rot + 1
      then gen_key (record sd { eff_key = λ fam. shift_keys (sd.eff_key fam) }) (pos (rot + 1))
          key_next
      else gen_key (gen_key (gen_key sd (before rot) key_prev) (pos rot) key_cur) (pos (rot + 1))
          key_next in
    record keys { cache_rot = rot }

-- the choice of `which` in `uet_sec_sd_key`
abbrev pub which_key : ℕ → ℕ → KeySlot
which_key an now_ms =
    if an == rot_now now_ms % 2
    then key_cur
    else if ltb (into_ms now_ms) rot_guard_ms
    then key_prev
    else key_next

-- The key that is returned, and the domain with its cache.
unfoldable pub sd_key : Sd → Family → ℕ → ℕ → Key × Sd
unfolding refresh_keys
sd_key sd fam an now_ms =
    if not sd.rotation_enabled
    then (sd.key fam an, sd)
    else let cached =
        if rot_now now_ms == sd.cache_rot then sd else refresh_keys sd (rot_now now_ms) in
      (cached.eff_key fam (which_key an now_ms), cached)

unfoldable pub tx_an : Sd → ℕ → ℕ
tx_an sd now_ms = if not sd.rotation_enabled then sd.an else rot_now now_ms % 2

unfoldable pub tx_rotate : Sd → ℕ → Sd
tx_rotate sd now_ms =
    if not sd.rotation_enabled
    then sd
    else if rot_now now_ms == sd.tx_rot
    then sd
    else record sd { tx_rot = rot_now now_ms; tx_counter = 0; epoch = 0 }

-- The key, the epoch and the counter of a packet, as uet_sec.c picks them: the AN and the counter
-- while it builds the security header, the key while it encrypts. Each of the three reads the
-- clock: the AN at `an_ms`, the counter `to_rotate` later, and the key `to_key` after that. `none` is a packet that is dropped because the counter has reached its limit.
unfoldable pub packet_nonce : Sd → Family → ℕ → ℕ → ℕ → Option (Key × ℕ × ℕ)
packet_nonce sd fam an_ms to_rotate to_key =
    let rotate_ms = an_ms + to_rotate in
    let key_ms = rotate_ms + to_key in
    let an = tx_an sd an_ms in
    let rotated = tx_rotate sd rotate_ms in
    let counted = record rotated { tx_counter = (rotated.tx_counter + 1) % 2 ^ 64 } in
    if leb rotated.invoke_fatal_threshold rotated.tx_counter
    then none
    else some ((sd_key counted fam an key_ms).0, rotated.epoch, rotated.tx_counter)
