-- ===== src/Pds/Rx/Duplicate.antt =====
-- What the receiver takes for a new packet, and what it answers to the others.
use native.Mathlib.Decide.{dec_lt, ℕ_discrete}
use uet_ref_prov.Base.{
  ==_iff, ==_false, lt→ltb, ltb-false, ℕ, ◌-◌, ◌^◌, ◌<◌, ◌≡◌, refl, sym, ap, ◌∙◌, inl, inr, Bool,
  true, false, not, ◌&&◌, ◌||◌, Option, none, some, pos, signed32, ◌==◌, ltb, leb, if◌then◌else◌,
  Bool-cases, arith,
}
use uet_ref_prov.Bitmap.{Bitmap, bm_get, bm_set}
use uet_ref_prov.Bitmap.Bits.{bit, datum}
use uet_ref_prov.Bitmap.Update.{
  bm_set-IsValid, bm_set-returns, size-bm_set, bit-bm_set, datum-bm_set,
}
use uet_ref_prov.Pds.Psn.{add32, sub32, psn_in_mpr, psn_in_prior_mpr}
use uet_ref_prov.Pds.Psn.Laws.{psn_in_mpr_lem}
use uet_ref_prov.Pds.State.{Pdc, Memory}
use uet_ref_prov.Pds.Rx.{
  Verdict, resend_ack, nack_ses_procg, found, new_psn, default_response, nack_invalid_syn,
  nack_oor_window, duplicate, in_window, accept, check_duplicate,
}
use uet_ref_prov.Pds.Rx.Window.{IsWindow, found_lem}

-- The answer to a packet that the window holds: a NACK while ROD has yet to deliver it and nothing is
-- acknowledged, else its acknowledgement again, where it has one.
abbrev pub answer_again : Memory → Option ℕ → Verdict
answer_again pkts none = default_response
answer_again pkts (some p) =
    if not (pkts p).has_ack && (pkts p).is_rod && not (pkts p).reordered
    then nack_ses_procg
    else if (pkts p).has_ack
    then resend_ack p
    else default_response

duplicate-answer_again : (pkts : Memory) (o : Option ℕ) → duplicate pkts o ≡ answer_again pkts o
unfolding duplicate
duplicate-answer_again pkts none = refl
duplicate-answer_again pkts (some p) = by_flags (pkts p).has_ack (pkts p).is_rod (pkts p).reordered
  where
    by_flags :
        (a b c : Bool)
        → (if a then resend_ack p else if b && not c then nack_ses_procg else default_response) ≡ (
            if not a && b && not c
            then nack_ses_procg
            else if a
            then resend_ack p
            else default_response)
    by_flags true b c = refl
    by_flags false b c = refl

module _ (pkts : Memory) (pdc : Pdc) (w : IsWindow pdc.rx_bm)
    (small : pdc.rx_bm_base_psn < 2 ^ 32) where
  index :
      (i : ℕ)
      → i < 2 ^ 31
      → signed32 (sub32 (add32 pdc.rx_bm_base_psn i) pdc.rx_bm_base_psn) ≡ pos i
  index i h = ground arith

  found_at :
      (i : ℕ)
      → i < 128
      → found (bm_get pdc.rx_bm (signed32 (sub32 (add32 pdc.rx_bm_base_psn i) pdc.rx_bm_base_psn)))
        ≡ (if bit pdc.rx_bm i then some (datum pdc.rx_bm i) else none)
  found_at i h =
      ap (λ k. found (bm_get pdc.rx_bm k)) (index i (omega arith)) ∙ found_lem pdc.rx_bm i w h

  check_duplicate_parts :
      (i : ℕ) (is_syn : Bool)
      → i < 2 ^ 32
      → check_duplicate pkts pdc (add32 pdc.rx_bm_base_psn i) is_syn ≡ (
          if ltb i 128
          then (if bit pdc.rx_bm i then duplicate pkts (datum pdc.rx_bm i) else new_psn)
          else if leb (2 ^ 32 - 128) i
          then default_response
          else if is_syn
          then nack_invalid_syn
          else nack_oor_window)
  unfolding check_duplicate
  check_duplicate_parts i is_syn h =
      by_range (add32 pdc.rx_bm_base_psn i) is_syn
      ∙ rw
          (
            (psn_in_mpr_lem pdc.rx_bm_base_psn i small h).0,
            (psn_in_mpr_lem pdc.rx_bm_base_psn i small h).1,
          )
          (elim (dec_lt i 128) [
            | yes p ↦
                rw (ltb_lem i p, leb_lem i p, found_at i p)
                  (choose (bit pdc.rx_bm i) (datum pdc.rx_bm i))
            | no p ↦ rw (ltb-false i 128 (omega arith))
          ])
    where
      by_range :
          (psn : ℕ) (is_syn : Bool)
          → check_duplicate pkts pdc psn is_syn ≡ (
              if psn_in_prior_mpr psn pdc.rx_bm_base_psn
              then default_response
              else if psn_in_mpr psn pdc.rx_bm_base_psn
              then in_window pkts
                  (found (bm_get pdc.rx_bm (signed32 (sub32 psn pdc.rx_bm_base_psn))))
              else if is_syn
              then nack_invalid_syn
              else nack_oor_window)
      by_range psn is_syn = refl

      ltb_lem : (i : ℕ) → i < 128 → ltb i 128 ≡ true
      ltb_lem i p = lt→ltb i 128 p

      leb_lem : (i : ℕ) → i < 128 → leb (2 ^ 32 - 128) i ≡ false
      leb_lem i p = ground arith

      choose :
          (b : Bool) (d : Option ℕ)
          → in_window pkts (if b then some d else none) ≡ (if b then duplicate pkts d else new_psn)
      choose true d = refl
      choose false d = refl

  -- The verdict on the PSN at distance `i` past the base of the window: new where the window holds
  -- no packet. Where it holds one, a NACK if that waits to be delivered in order and has no
  -- acknowledgement, else its acknowledgement again, or the default response without one. The
  -- default response in the 128 PSNs before the window; a NACK elsewhere.
  pub check_duplicate_lem :
      (i : ℕ) (is_syn : Bool)
      → i < 2 ^ 32
      → check_duplicate pkts pdc (add32 pdc.rx_bm_base_psn i) is_syn ≡ (
          if ltb i 128
          then (if bit pdc.rx_bm i then answer_again pkts (datum pdc.rx_bm i) else new_psn)
          else if leb (2 ^ 32 - 128) i
          then default_response
          else if is_syn
          then nack_invalid_syn
          else nack_oor_window)
  check_duplicate_lem i is_syn h =
      check_duplicate_parts i is_syn h
      ∙ ap
          (λ (v : Verdict).
            if ltb i 128
            then (if bit pdc.rx_bm i then v else new_psn)
            else if leb (2 ^ 32 - 128) i
            then default_response
            else if is_syn
            then nack_invalid_syn
            else nack_oor_window)
          (duplicate-answer_again pkts (datum pdc.rx_bm i))

or_false : (b : Bool) → (b || false) ≡ b
or_false true = refl
or_false false = refl

-- A new packet `p` in the window, at index `i`.
module _ (pkts : Memory) (pdc : Pdc) (w : IsWindow pdc.rx_bm) (small : pdc.rx_bm_base_psn < 2 ^ 32)
    (i p : ℕ) (in_range : i < 128) where
  abbrev pub entered : Bitmap ℕ
  entered = (bm_set pdc.rx_bm (pos i) (some p)).1

  in_size : i < pdc.rx_bm.size
  in_size = omega (arith, w.full_size)

  bit-entered : (j : ℕ) → bit entered j ≡ (bit pdc.rx_bm j || i == j)
  bit-entered = bit-bm_set pdc.rx_bm i w.valid in_size (some p)

  datum-entered : (j : ℕ) → datum entered j ≡ (if i == j then some p else datum pdc.rx_bm j)
  datum-entered = datum-bm_set pdc.rx_bm i w.valid in_size (some p)

  pub entered-IsWindow : IsWindow entered
  entered-IsWindow = record {
    valid = bm_set-IsValid pdc.rx_bm i w.valid in_size (some p);
    full_size = size-bm_set pdc.rx_bm i w.valid in_size (some p) ∙ w.full_size;
    held = λ j h b. elim (Bool-cases (i == j)) [
      | inl e ↦ (p, rw (datum-entered j, e))
      | inr e ↦
          rw (datum-entered j, e)
            (w.held j h (sym (rw e at (bit-entered j) ∙ or_false (bit pdc.rx_bm j)) ∙ b))
    ];
  }

  accept-bm_set : accept pdc (add32 pdc.rx_bm_base_psn i) p ≡ (true, record pdc { rx_bm = entered })
  unfolding accept
  accept-bm_set =
      ap (λ k. let r = bm_set pdc.rx_bm k (some p) in (r.0, record pdc { rx_bm = r.1 }))
        (index pkts pdc w small i (omega arith))
      ∙ rw (bm_set-returns pdc.rx_bm i w.valid in_size (some p))

  verdict_after :
      (j : ℕ) (is_syn : Bool)
      → j < 2 ^ 32
      → check_duplicate pkts (record pdc { rx_bm = entered }) (add32 pdc.rx_bm_base_psn j) is_syn
        ≡ (if i == j
            then answer_again pkts (some p)
            else check_duplicate pkts pdc (add32 pdc.rx_bm_base_psn j) is_syn)
  verdict_after j is_syn h =
      check_duplicate_lem pkts (record pdc { rx_bm = entered }) entered-IsWindow small j is_syn h
      ∙ rw (bit-entered j, datum-entered j, check_duplicate_lem pkts pdc w small j is_syn h)
          (elim (ℕ_discrete i j) [
            | yes e ↦ rw ((==_iff i j).1 e, lt→ltb j 128 (omega arith)) (choose (bit pdc.rx_bm j))
            | no ne ↦ rw (==_false i j ne, or_false (bit pdc.rx_bm j))
          ])
    where
      choose :
          (b : Bool)
          → (if b || true then answer_again pkts (some p) else new_psn) ≡ answer_again pkts (some p)
      choose true = refl
      choose false = refl

  -- A packet `p` whose PSN lies in a sound window enters the window, which stays sound; from then on
  -- a packet of this PSN counts as a duplicate of `p`, and the verdict on every other PSN is what it
  -- was.
  pub accept_lem :
      (accept pdc (add32 pdc.rx_bm_base_psn i) p ≡ (true, record pdc { rx_bm = entered }))
      × IsWindow entered
      × ((j : ℕ) (is_syn : Bool)
          → j < 2 ^ 32
          → check_duplicate pkts
              (record pdc { rx_bm = entered })
              (add32 pdc.rx_bm_base_psn j)
              is_syn
            ≡ (if i == j
                then answer_again pkts (some p)
                else check_duplicate pkts pdc (add32 pdc.rx_bm_base_psn j) is_syn))
  accept_lem = (accept-bm_set, entered-IsWindow, verdict_after)
