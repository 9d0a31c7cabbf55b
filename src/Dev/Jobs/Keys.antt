-- ===== src/Dev/Jobs/Keys.antt =====
-- The job keys of uet_vfio/uet_dev_objs.c: what each write of a slot does to the keys' validity.
use uet_ref_prov.Base.{
  ℕ, zero, suc, ◌+◌, ◌-◌, ◌^◌, ◌<◌, ◌≤◌, ◌≡◌, ◌≢◌, refl, sym, ap, ◌∙◌, subst, true, false, List, [],
  ◌∷◌, ◌==◌, if◌then◌else◌, get_or, set, length, length-set, arith, Bool-cases, ==_iff, inl, inr,
}
use mathlib.Core.Bool.{false≢true}
use uet_ref_prov.Dev.Slots.{
  bit, inc32, dec32, dec32-pos, first_free, count, count_le, first_free_le, first_free-get_or,
  get_or-set, inc32-count, dec32-count,
}
use uet_ref_prov.Dev.State.{Job, Jkey, zero_job, zero_jkey, max_job_keys}
use uet_ref_prov.Dev.Jobs.{job_used, jkey_used, names_job, drop_key, release_keys}
use uet_ref_prov.Dev.Jobs.Invariant.{names_active, KeysValid}

-- A write to one slot does not free the jobs that other handles name.
pub names_active-set :
    (js : List Job) (i h : ℕ) (v : Job)
    → i < length js
    → h ≢ i + 1
    → names_active js h ≡ true
    → names_active (set js i v) h ≡ true
names_active-set js i zero v b ne e = absurd (false≢true e)
names_active-set js i (suc h) v b ne e =
    rw (get_or-set js i h v zero_job b) (elim (Bool-cases (h == i)) [
      | inl q ↦ absurd (ne (ap suc ((==_iff h i).0 q) ∙ omega arith))
      | inr q ↦ rw q e
    ])

-- An idle slot has no key.
pub names_active-idle :
    (js : List Job) (i h : ℕ)
    → job_used (get_or js i zero_job) ≡ false
    → names_active js h ≡ true
    → h ≢ i + 1
names_active-idle js i zero idle e q = false≢true e
names_active-idle js i (suc h) idle e q = false≢true (
    sym (
      rw (subst (λ k. job_used (get_or js k zero_job) ≡ false) {x = i} {y = h} (omega arith) idle)
        refl)
    ∙ e)

KeysValid-jobs :
    {js js1 : List Job} {ks : List Jkey} {live : ℕ} (w : KeysValid js ks live)
    → ((h : ℕ) → names_active js h ≡ true → names_active js1 h ≡ true)
    → KeysValid js1 ks live
KeysValid-jobs w f = record {
  jkeys_length = w.jkeys_length;
  jkeys_live = w.jkeys_live;
  named = λ k u. f _ (w.named k u);
}

-- A write into an idle slot of the jobs keeps the keys valid.
pub KeysValid-fill :
    {js : List Job} {ks : List Jkey} {live : ℕ} (w : KeysValid js ks live) (i : ℕ) (v : Job)
    → i < length js
    → job_used (get_or js i zero_job) ≡ false
    → KeysValid (set js i v) ks live
KeysValid-fill {js = js} w i v b idle =
    KeysValid-jobs w (λ h e. names_active-set js i h v b (names_active-idle js i h idle e) e)

-- Releasing the keys of a job drops exactly these,
pub get_or-release_keys :
    (handle : ℕ) (ks : List Jkey) (live k : ℕ)
    → get_or (release_keys handle ks live).0 k zero_jkey ≡ (
        if names_job handle (get_or ks k zero_jkey)
        then drop_key (get_or ks k zero_jkey)
        else get_or ks k zero_jkey)
get_or-release_keys handle [] live k = refl
get_or-release_keys handle (x ∷ ks) live zero = refl
get_or-release_keys handle (x ∷ ks) live (suc k) = get_or-release_keys handle ks _ k

pub length-release_keys :
    (handle : ℕ) (ks : List Jkey) (live : ℕ) → length (release_keys handle ks live).0 ≡ length ks
length-release_keys handle [] live = refl
length-release_keys handle (x ∷ ks) live = ap suc (length-release_keys handle ks _)

names_job-used : (handle : ℕ) (x : Jkey) → names_job handle x ≡ true → jkey_used x ≡ true
names_job-used handle x q = ground arith

dec32-used :
    (live rest : ℕ) (x : Jkey) (n : ℕ)
    → live ≡ rest + (bit (jkey_used x) + n)
    → jkey_used x ≡ true
    → live < 2 ^ 32
    → (dec32 live ≡ rest + n) × (dec32 live < 2 ^ 32)
dec32-used live rest x n e u h = (omega (arith, d, one), omega (arith, d, one))
  where
    one : live ≡ rest + (1 + n)
    one = e ∙ ap (λ b. rest + (bit b + n)) u

    d : dec32 live ≡ live - 1
    d = dec32-pos live (omega (arith, one)) h

-- and the counter follows; `rest` counts the slots before.
pub count-release_keys :
    (handle : ℕ) (ks : List Jkey) (live rest : ℕ)
    → live ≡ rest + count jkey_used ks
    → live < 2 ^ 32
    → (release_keys handle ks live).1 ≡ rest + count jkey_used (release_keys handle ks live).0
count-release_keys handle [] live rest e h = e
count-release_keys handle (x ∷ ks) live rest e h = elim (Bool-cases (names_job handle x)) [
  | inl q ↦
      let d = dec32-used live rest x (count jkey_used ks) e (names_job-used handle x q) h in
      rw q (omega (arith, count-release_keys handle ks (dec32 live) rest d.0 d.1))
  | inr q ↦ rw q (
      omega
        (arith, count-release_keys handle ks live (rest + bit (jkey_used x)) (omega (arith, e)) h))
]

names_other : (h : ℕ) (x : Jkey) → names_job h x ≡ false → jkey_used x ≡ true → x.job_handle ≢ h
names_other h x q u e = false≢true (sym q ∙ rw (u, e) ((==_iff h h).1 refl))

KeysValid-small :
    {js : List Job} {ks : List Jkey} {live : ℕ} (w : KeysValid js ks live) → live ≤ max_job_keys
KeysValid-small {ks = ks} w = omega (arith, w.jkeys_live, w.jkeys_length, count_le jkey_used ks)

-- Once the keys of the job in slot `i` are released, any job may be written there.
pub KeysValid-release :
    {js : List Job} {ks : List Jkey} {live : ℕ} (w : KeysValid js ks live) (i : ℕ) (v : Job)
    → i < length js
    → KeysValid (set js i v) (release_keys (i + 1) ks live).0 (release_keys (i + 1) ks live).1
KeysValid-release {js = js} {ks = ks} {live = live} w i v b = record {
  jkeys_length = length-release_keys (i + 1) ks live ∙ w.jkeys_length;
  jkeys_live =
      count-release_keys (i + 1) ks live 0 (omega (arith, w.jkeys_live))
        (omega (arith, KeysValid-small w))
      ∙ omega arith;
  named = λ k.
      rw (get_or-release_keys (i + 1) ks live k)
        (elim (Bool-cases (names_job (i + 1) (get_or ks k zero_jkey))) [
          | inl q ↦ rw q (λ u. absurd (false≢true u))
          | inr q ↦ rw q (λ u.
              names_active-set js i _ v b (names_other (i + 1) (get_or ks k zero_jkey) q u)
                (w.named k u))
        ]);
}

-- A free key slot may take a key for an active job,
pub KeysValid-create :
    {js : List Job} {ks : List Jkey} {live : ℕ} (w : KeysValid js ks live) (x : Jkey)
    → first_free jkey_used ks ≢ max_job_keys
    → x.used ≡ true
    → names_active js x.job_handle ≡ true
    → KeysValid js (set ks (first_free jkey_used ks) x) (inc32 live)
KeysValid-create {js = js} {ks = ks} {live = live} w x room u e = record {
  jkeys_length = length-set ks (first_free jkey_used ks) x ∙ w.jkeys_length;
  jkeys_live =
      inc32-count jkey_used ks live (first_free jkey_used ks) x zero_jkey w.jkeys_live
        (omega (arith, w.jkeys_length)) inside (first_free-get_or jkey_used ks zero_jkey inside) u;
  named = λ k.
      rw (get_or-set ks (first_free jkey_used ks) k x zero_jkey inside)
        (elim (Bool-cases (k == first_free jkey_used ks)) [
          | inl q ↦ rw q (λ u. e)
          | inr q ↦ rw q (w.named k)
        ]);
}
  where
    inside : first_free jkey_used ks < length ks
    inside = omega (arith, room, w.jkeys_length, first_free_le jkey_used ks)

-- and a key in use may be dropped.
pub KeysValid-destroy :
    {js : List Job} {ks : List Jkey} {live : ℕ} (w : KeysValid js ks live) (i : ℕ)
    → i < max_job_keys
    → jkey_used (get_or ks i zero_jkey) ≡ true
    → KeysValid js (set ks i (drop_key (get_or ks i zero_jkey))) (dec32 live)
KeysValid-destroy {js = js} {ks = ks} {live = live} w i b u = record {
  jkeys_length = length-set ks i _ ∙ w.jkeys_length;
  jkeys_live =
      dec32-count jkey_used ks live i (drop_key (get_or ks i zero_jkey)) zero_jkey w.jkeys_live
        (omega (arith, w.jkeys_length)) inside u refl;
  named = λ k.
      rw (get_or-set ks i k (drop_key (get_or ks i zero_jkey)) zero_jkey inside)
        (elim (Bool-cases (k == i)) [
          | inl q ↦ rw q (λ u. absurd (false≢true u))
          | inr q ↦ rw q (w.named k)
        ]);
}
  where
    inside : i < length ks
    inside = omega (arith, b, w.jkeys_length)
