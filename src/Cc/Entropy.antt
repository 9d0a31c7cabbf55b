-- ===== src/Cc/Entropy.antt =====
-- cc/uet_cc_st.c: `select_entropy`, which picks the path of the next packet.
use native.Mathlib.Decide.{ℕ_discrete}
use uet_ref_prov.Base.{
  ℕ, zero, suc, ◌+◌, ◌%◌, ◌^◌, ◌<◌, ◌≡◌, refl, ap, ◌∙◌, Option, none, some, List, ◌==◌,
  if◌then◌else◌, arith, ==_iff, ==_false,
}
use uet_ref_prov.Cc.Path.{get_ev_state, set_ev_state, path_good, path_bad, path_skip}

-- `enum uet_cc_spraying_type`
pub data Spraying : Type 0 where
  no_spray oblivious_spray selective_spray : Spraying

-- `struct uet_cc_ctx`: the fields of the selection
pub record Spray : Type 0 where
  pub spraying_type : Spraying
  pub num_paths : ℕ
  pub next_ev : ℕ
  pub ev_state : List ℕ

pub data Selected : Type 0 where
  picked : ℕ → Spray → Selected
  out_of_array : Selected
  running : Selected  -- no fuel left

-- `ev_state` of path `ev` once it is read, and the rest of the loop
abbrev by_state : Spray → ℕ → Option ℕ → (Spray → Selected) → Selected
by_state s ev none next = out_of_array
by_state s ev (some state) next =
    if state == path_good
    then picked ev s
    else if state == path_skip
    then (elim (set_ev_state s.ev_state (ev % 2 ^ 16) path_good) [
      | none ↦ out_of_array
      | some ev_state ↦ next (record s { ev_state = ev_state })
    ])
    else next s

-- `ccc->next_ev++`, and back to 0 at `num_paths`
abbrev pub next_path : Spray → ℕ
next_path s =
    let next_ev = (s.next_ev + 1) % 2 ^ 32 in if next_ev == s.num_paths then 0 else next_ev

abbrev by_type : Spraying → Spray → ℕ → (Spray → Selected) → Selected
by_type selective_spray s ev next = by_state s ev (get_ev_state s.ev_state (ev % 2 ^ 16)) next
by_type other s ev next = picked ev s

-- `while (true)`, with fuel
pub select_from : ℕ → Spray → Selected
select_from zero s = running
select_from (suc fuel) s =
    by_type s.spraying_type (record s { next_ev = next_path s }) s.next_ev (select_from fuel)

pub select_entropy : ℕ → Spray → Selected
unfolding select_from
select_entropy fuel s = elim s.spraying_type [
  | no_spray ↦ picked s.next_ev s
  | other ↦ select_from fuel s
]

next_path-lt :
    (s : Spray) → s.next_ev < s.num_paths → s.num_paths < 2 ^ 16 → next_path s < s.num_paths
next_path-lt s h small = elim (ℕ_discrete ((s.next_ev + 1) % 2 ^ 32) s.num_paths) [
  | yes e ↦ rw ((==_iff ((s.next_ev + 1) % 2 ^ 32) s.num_paths).1 e) (omega arith)
  | no ne ↦ rw (==_false ((s.next_ev + 1) % 2 ^ 32) s.num_paths ne) (omega arith)
]

select_from-suc :
    (fuel : ℕ) (s : Spray)
    → select_from (suc fuel) s
      ≡ by_type s.spraying_type (record s { next_ev = next_path s }) s.next_ev (select_from fuel)
unfolding select_from
select_from-suc fuel s = refl

-- Where spraying is selective and every path is bad, the loop of `select_entropy` never ends: no number
-- of rounds gives a path.
pub all_bad_lem :
    (fuel num_paths next_ev : ℕ) (ev_state : List ℕ)
    → num_paths < 2 ^ 16
    → next_ev < num_paths
    → ((ev : ℕ) → ev < num_paths → get_ev_state ev_state ev ≡ some path_bad)
    → select_entropy fuel (record {
      spraying_type = selective_spray;
      num_paths = num_paths;
      next_ev = next_ev;
      ev_state = ev_state;
    })
      ≡ running
unfolding select_entropy select_from
all_bad_lem zero num_paths next_ev ev_state small h bad = refl
all_bad_lem (suc fuel) num_paths next_ev ev_state small h bad =
    let s : Spray = record {
      spraying_type = selective_spray;
      num_paths = num_paths;
      next_ev = next_ev;
      ev_state = ev_state;
    } in
    ap (λ o. by_state (record s { next_ev = next_path s }) next_ev o (select_from fuel))
      (ap (get_ev_state ev_state) {x = next_ev % 2 ^ 16} {y = next_ev} (omega arith)
        ∙ bad next_ev h)
    ∙ all_bad_lem fuel num_paths (next_path s) ev_state small (next_path-lt s h small) bad
