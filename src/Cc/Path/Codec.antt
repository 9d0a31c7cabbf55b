-- ===== src/Cc/Path/Codec.antt =====
-- `get_ev_state` after `set_ev_state`.
use native.Mathlib.Decide.{ℕ_discrete}
use uet_ref_prov.Base.{
  ℕ, ◌+◌, ◌*◌, ◌/◌, ◌%◌, ◌<◌, ◌≡◌, ◌≢◌, refl, sym, ap, ◌∙◌, Bool, true, some, List, ◌==◌,
  if◌then◌else◌, arith, ==_iff, ==_false, length, get_elem?, get_or, set, store_lem,
  get_elem?-set_self, get_elem?-set_ne, get_elem?-eq-get_or, ◌>>=◌, all_below, all_below_lem,
}
use uet_ref_prov.Cc.Path.{byte_get, byte_set, get_ev_state, set_ev_state}

-- A byte, two paths and a state, in one number.
byte_test : ℕ → Bool
byte_test k =
    byte_get (byte_set (k / 64) (k / 16 % 4) (k % 4)) (k / 4 % 4)
    == (if k / 16 % 4 == k / 4 % 4 then k % 4 else byte_get (k / 64) (k / 4 % 4))

byte_tests : all_below 16384 byte_test ≡ true
unfolding all_below byte_test
byte_tests = refl

-- Two paths of one byte.
byte_lem :
    (b ev ev' state : ℕ)
    → b < 256
    → state < 4
    → byte_get (byte_set b ev state) ev' ≡ (if ev % 4 == ev' % 4 then state else byte_get b ev')
unfolding byte_test
byte_lem b ev ev' state hb hs =
    let k = b * 64 + (ev % 4) * 16 + (ev' % 4) * 4 + state in
    let passed = (==_iff _ _).0 (all_below_lem 16384 byte_test byte_tests k (omega arith)) in
    let of_b : k / 64 ≡ b = omega arith in
    let of_ev : k / 16 % 4 ≡ ev % 4 = omega arith in
    let of_ev' : k / 4 % 4 ≡ ev' % 4 = omega arith in
    let of_state : k % 4 ≡ state = omega arith in
    let again : ev % 4 % 4 ≡ ev % 4 = omega arith in
    let again' : ev' % 4 % 4 ≡ ev' % 4 = omega arith in
    rw (of_b, of_ev, of_ev', of_state, again, again') at passed

get_ev_state-of :
    (ev_state : List ℕ) (ev b : ℕ)
    → get_elem? ev_state (ev / 4) ≡ some b
    → get_ev_state ev_state ev ≡ some (byte_get b ev)
unfolding get_ev_state
get_ev_state-of ev_state ev b e = ap (λ o. o >>= λ c. some (byte_get c ev)) e

get_ev_state-same :
    (xs ys : List ℕ) (ev : ℕ)
    → get_elem? xs (ev / 4) ≡ get_elem? ys (ev / 4)
    → get_ev_state xs ev ≡ get_ev_state ys ev
unfolding get_ev_state
get_ev_state-same xs ys ev e = ap (λ o. o >>= λ c. some (byte_get c ev)) e

module _ (ev_state : List ℕ) (bytes : (j : ℕ) → get_or ev_state j 0 < 256) (ev state : ℕ)
    (in_range : ev / 4 < length ev_state) (small : state < 4) where
  abbrev byte : ℕ
  byte = get_or ev_state (ev / 4) 0

  set_ev_state-store :
      set_ev_state ev_state ev state ≡ some (set ev_state (ev / 4) (byte_set byte ev state))
  unfolding set_ev_state
  set_ev_state-store = rw (
    get_elem?-eq-get_or ev_state (ev / 4) 0 in_range,
    store_lem ev_state (ev / 4) (byte_set byte ev state) in_range,
  )

  after : List ℕ
  after = set ev_state (ev / 4) (byte_set byte ev state)

  same_byte :
      (ev' : ℕ)
      → ev / 4 ≡ ev' / 4
      → get_ev_state after ev' ≡ (if ev == ev' then some state else get_ev_state ev_state ev')
  unfolding after
  same_byte ev' e =
      get_ev_state-of after ev' (byte_set byte ev state) (
        ap (get_elem? after) (sym e)
        ∙ get_elem?-set_self ev_state (ev / 4) (byte_set byte ev state) in_range)
      ∙ ap (λ k. some k) (byte_lem byte ev ev' state (bytes (ev / 4)) small)
      ∙ elim (ℕ_discrete ev ev') [
        | yes same ↦
            rw ((==_iff ev ev').1 same, (==_iff (ev % 4) (ev' % 4)).1 (ap (λ k. k % 4) same))
        | no ne ↦
            rw (==_false ev ev' ne, ==_false (ev % 4) (ev' % 4) (omega arith))
              (sym (
                get_ev_state-of ev_state ev' byte (
                  ap (get_elem? ev_state) (sym e)
                  ∙ get_elem?-eq-get_or ev_state (ev / 4) 0 in_range)))
      ]

  other_byte :
      (ev' : ℕ)
      → ev / 4 ≢ ev' / 4
      → get_ev_state after ev' ≡ (if ev == ev' then some state else get_ev_state ev_state ev')
  unfolding after
  other_byte ev' ne =
      rw (==_false ev ev' (omega arith)) (
        get_ev_state-same after ev_state ev'
          (get_elem?-set_ne ev_state (byte_set byte ev state) ne))

  -- With bytes in `ev_state`: after `set_ev_state` of path `ev`, in the array, to one of the four
  -- states, `get_ev_state` reads that state at `ev` and what it read before at every other path,
  -- also of the same byte.
  pub get_ev_state-set_ev_state :
      (ev' : ℕ)
      → (do written ← set_ev_state ev_state ev state; get_ev_state written ev')
        ≡ (if ev == ev' then some state else get_ev_state ev_state ev')
  unfolding after
  get_ev_state-set_ev_state ev' =
      rw set_ev_state-store (elim (ℕ_discrete (ev / 4) (ev' / 4)) [
        | yes e ↦ same_byte ev' e
        | no ne ↦ other_byte ev' ne
      ])
