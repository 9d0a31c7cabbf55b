-- ===== src/Sec/Rotation/Nonce.antt =====
-- The counter of a packet that is built while the rotation changes.
use uet_ref_prov.Base.{
  leb, leb-false, Option, none, some, ◌<◌, ℕ, ◌+◌, ◌%◌, ◌^◌, ◌≤◌, ◌≡◌, ◌≢◌, sym, ap, ◌∙◌, true, not,
  pos, ◌==◌, if◌then◌else◌, arith, ==_false,
}
use uet_ref_prov.Sec.Rotation.{
  Family, Key, Sd, rot_now, effective_key, sd_key, tx_an, tx_rotate, packet_nonce,
}
use uet_ref_prov.Sec.Rotation.Cache.{IsCoherent, sd_key_lem}
use uet_ref_prov.Sec.Rotation.Skew.{chosen_key, tx_an_lem, rot_now-le}

module _ (sd : Sd) (fam : Family) (on : sd.rotation_enabled ≡ true) (c : IsCoherent sd)
    (an_ms to_rotate to_key : ℕ) (late : 20000 ≤ an_ms + to_rotate + to_key)
    (after : an_ms + to_rotate + to_key ≤ an_ms + 2000)
    (changed : rot_now (an_ms + to_rotate) ≢ sd.tx_rot)
    (limit : 0 < sd.invoke_fatal_threshold) where
  abbrev rotate_ms : ℕ
  rotate_ms = an_ms + to_rotate

  abbrev key_ms : ℕ
  key_ms = rotate_ms + to_key

  -- The domain after the reset, and with its counter taken.
  abbrev reset : Sd
  reset = record sd { tx_rot = rot_now rotate_ms; tx_counter = 0; epoch = 0 }

  abbrev nonce_of : Sd → Option (Key × ℕ × ℕ)
  nonce_of rotated =
      if leb rotated.invoke_fatal_threshold rotated.tx_counter
      then none
      else some (
        (sd_key (record rotated { tx_counter = (rotated.tx_counter + 1) % 2 ^ 64 }) fam
            (tx_an sd an_ms) key_ms).0,
        rotated.epoch,
        rotated.tx_counter,
      )

  tx_rotate-reset : tx_rotate sd rotate_ms ≡ reset
  unfolding tx_rotate
  tx_rotate-reset =
      ap (λ b. if not b then sd else if rot_now rotate_ms == sd.tx_rot then sd else reset) on
      ∙ ap (λ b. if b then sd else reset) (==_false (rot_now rotate_ms) sd.tx_rot changed)

  reset_key :
      (sd_key (record reset { tx_counter = (0 + 1) % 2 ^ 64 }) fam (tx_an sd an_ms) key_ms).0
      ≡ effective_key sd.key fam (pos (rot_now an_ms))
  reset_key = rw (tx_an_lem sd an_ms on) (
      (sd_key_lem (record reset { tx_counter = (0 + 1) % 2 ^ 64 }) fam (rot_now an_ms % 2) key_ms on
        c (rot_now-le key_ms late)).0
      ∙ chosen_key sd.key fam an_ms key_ms after (omega arith))

  abbrev counted_key : Key
  counted_key =
      (sd_key (record reset { tx_counter = (0 + 1) % 2 ^ 64 }) fam (tx_an sd an_ms) key_ms).0

  -- A packet at which a change of the rotation is seen has epoch 0 and counter 0, with the key of
  -- the rotation in which its AN was read.
  pub reset_nonce :
      packet_nonce sd fam an_ms to_rotate to_key
      ≡ some (effective_key sd.key fam (pos (rot_now an_ms)), 0, 0)
  unfolding packet_nonce
  reset_nonce =
      ap nonce_of tx_rotate-reset
      ∙ ap (λ b. if b then none else some (counted_key, 0, 0))
          (leb-false sd.invoke_fatal_threshold 0 limit)
      ∙ ap (λ (k : Key). some (k, 0, 0)) reset_key

-- A nonce is used twice with one key: by the first packet of a rotation, built at time `t` in it
-- by a domain that has not seen it, and by a packet whose AN is read in that rotation and whose
-- counter and key are taken in the next one, up to 2 s after its AN was read. The counter has a
-- limit above 0.
pub nonce_repeats :
    (first later : Sd) (fam : Family) (t an_ms to_rotate to_key : ℕ)
    → first.rotation_enabled ≡ true
    → later.rotation_enabled ≡ true
    → IsCoherent first
    → IsCoherent later
    → first.key ≡ later.key
    → 20000 ≤ t
    → 20000 ≤ an_ms
    → first.tx_rot ≢ rot_now t
    → later.tx_rot ≡ rot_now t
    → rot_now an_ms ≡ rot_now t
    → rot_now (an_ms + to_rotate) ≡ rot_now t + 1
    → to_rotate + to_key ≤ 2000
    → 0 < first.invoke_fatal_threshold
    → 0 < later.invoke_fatal_threshold
    → packet_nonce later fam an_ms to_rotate to_key ≡ packet_nonce first fam t 0 0
nonce_repeats first later fam t an_ms to_rotate to_key on on' c c' pool ht han unseen seen same next
      after room room' =
    reset_nonce later fam on' c' an_ms to_rotate to_key (omega arith) (omega arith)
      (λ e. absurd (omega arith)) room'
    ∙ ap (λ q. some (effective_key later.key fam (pos q), 0, 0)) same
    ∙ ap (λ key. some (effective_key key fam (pos (rot_now t)), 0, 0)) (sym pool)
    ∙ sym (
        reset_nonce first fam on c t 0 0 (omega arith) (omega arith)
          (λ e. unseen (sym e ∙ ap rot_now (omega arith))) room)
