-- ===== src/Cc/Tests.antt =====
-- Eight paths.
use uet_ref_prov.Base.{
  refl, ℕ, zero, suc, ◌<◌, ◌≡◌, some, List, [], ◌∷◌, ◌==◌, if◌then◌else◌, arith, get_or, ◌>>=◌,
}
use uet_ref_prov.Cc.Path.{get_ev_state, set_ev_state, path_bad}
use uet_ref_prov.Cc.Entropy.{Spraying, running, select_entropy, all_bad_lem}
use uet_ref_prov.Cc.Path.Codec.{get_ev_state-set_ev_state}

-- Paths 1 and 6 are skipped, path 2 is bad.
abbrev eight_paths : List ℕ
eight_paths = 0x18 ∷ 0x20 ∷ []

eight_paths-bytes : (j : ℕ) → get_or eight_paths j 0 < 256
eight_paths-bytes zero = omega arith
eight_paths-bytes (suc zero) = omega arith
eight_paths-bytes (suc (suc j)) = omega arith

get_ev_state-set_ev_state_example :
    (do written ← set_ev_state eight_paths 5 path_bad; get_ev_state written 6)
    ≡ (if 5 == 6 then some path_bad else get_ev_state eight_paths 6)
get_ev_state-set_ev_state_example =
    get_ev_state-set_ev_state eight_paths eight_paths-bytes 5 path_bad (omega arith) (omega arith) 6

-- Four paths, all bad.
abbrev bad_paths : List ℕ
bad_paths = 0x55 ∷ []

bad_paths-bad : (ev : ℕ) → ev < 4 → get_ev_state bad_paths ev ≡ some path_bad
unfolding get_ev_state
bad_paths-bad zero h = refl
bad_paths-bad (suc zero) h = refl
bad_paths-bad (suc (suc zero)) h = refl
bad_paths-bad (suc (suc (suc zero))) h = refl
bad_paths-bad (suc (suc (suc (suc ev)))) h = absurd (omega arith)

all_bad_example :
    select_entropy 9 (record {
      spraying_type = Spraying.selective_spray;
      num_paths = 4;
      next_ev = 2;
      ev_state = bad_paths;
    })
    ≡ running
all_bad_example = all_bad_lem 9 4 2 bad_paths (omega arith) (omega arith) bad_paths-bad
