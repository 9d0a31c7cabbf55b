-- ===== src/Cc/Path.antt =====
-- cc/uet_cc_st.c: the states of the paths that packets are sprayed over, two bits for each path.
-- `none` is an access outside `ev_state`.
pub mod Codec
use uet_ref_prov.Base.{
  ℕ, ◌+◌, ◌-◌, ◌*◌, ◌/◌, ◌%◌, ◌^◌, Bool, true, false, Option, none, some, List, ◌==◌, if◌then◌else◌,
  get_elem?, store, ◌>>=◌, shl, shr, complement, bit_and, bit_or, replicate,
}

-- UET_CC_PATH_GOOD, UET_CC_PATH_BAD and UET_CC_PATH_SKIP
abbrev pub path_good : ℕ
path_good = 0

abbrev pub path_bad : ℕ
path_bad = 1

abbrev pub path_skip : ℕ
path_skip = 2

-- `2 * (ev & 3)`
abbrev pub ev_shift : ℕ → ℕ
ev_shift ev = 2 * (ev % 4)

-- the two bits of a byte of `ev_state`
abbrev pub byte_get : ℕ → ℕ → ℕ
byte_get b ev = shr (bit_and b (shl 8 3 (ev_shift ev))) (ev_shift ev)

abbrev pub byte_set : ℕ → ℕ → ℕ → ℕ
byte_set b ev state =
    bit_or (bit_and b (complement 8 (shl 8 3 (ev_shift ev)))) (shl 8 state (ev_shift ev))

unfoldable pub get_ev_state : List ℕ → ℕ → Option ℕ
get_ev_state ev_state ev = do b ← get_elem? ev_state (ev / 4); some (byte_get b ev)

pub set_ev_state : List ℕ → ℕ → ℕ → Option (List ℕ)
set_ev_state ev_state ev state = do
  b ← get_elem? ev_state (ev / 4)
  store ev_state (ev / 4) (byte_set b ev state)

-- `uet_cc_path_update`
pub data PathUpdate : Type 0 where
  ack ecn nack rto : PathUpdate

-- `struct uet_cc_ctx`: the fields of the paths
pub record Paths : Type 0 where
  pub ev_state : List ℕ
  pub bad_paths : ℕ
  pub skip_paths : ℕ

-- `n++` and `n--` on `uint16_t`
abbrev pub inc16 : ℕ → ℕ
inc16 n = (n + 1) % 2 ^ 16

abbrev pub dec16 : ℕ → ℕ
dec16 n = (n + 2 ^ 16 - 1) % 2 ^ 16

-- The two counters for a path in `state`; the tests at the end of `update_path` do nothing.
abbrev pub count_update : PathUpdate → ℕ → Paths → Paths
count_update rto state p = record p {
  skip_paths = if state == path_skip then dec16 p.skip_paths else p.skip_paths;
  bad_paths = inc16 p.bad_paths;
}
count_update ecn state p = record p {
  bad_paths = if state == path_bad then dec16 p.bad_paths else p.bad_paths;
  skip_paths = inc16 p.skip_paths;
}
count_update nack state p = record p {
  bad_paths = if state == path_bad then dec16 p.bad_paths else p.bad_paths;
  skip_paths = inc16 p.skip_paths;
}
count_update ack state p = record p {
  skip_paths = if state == path_skip then dec16 p.skip_paths else p.skip_paths;
  bad_paths = if state == path_bad then dec16 p.bad_paths else p.bad_paths;
}

abbrev pub new_state : PathUpdate → ℕ
new_state rto = path_bad
new_state ecn = path_skip
new_state nack = path_skip
new_state ack = path_good

-- `ev` is narrowed to `uint16_t` by the calls
pub update_path : Paths → ℕ → PathUpdate → Option Paths
update_path p ev update = do
  state ← get_ev_state p.ev_state (ev % 2 ^ 16)
  ev_state ← set_ev_state p.ev_state (ev % 2 ^ 16) (new_state update)
  some (record (count_update update state p) { ev_state = ev_state })
