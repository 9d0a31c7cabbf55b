-- ===== src/Dev/Mrs/Ops.antt =====
-- Every operation of uet_vfio/uet_dev_objs.c on memory regions keeps them valid.
use uet_ref_prov.Base.{
  if_both, ℕ, zero, suc, ◌%◌, ◌^◌, ◌<◌, ◌≡◌, refl, sym, ap, ◌∙◌, Bool, true, false, not, ◌&&◌,
  Option, none, some, List, [], ◌∷◌, ◌==◌, leb, if◌then◌else◌, get_or, set, map, length, length-set,
  length-map, arith, Bool-cases, ==_ne, inl, inr,
}
use uet_ref_prov.Dev.Slots.{
  bit, inc32, dec32, first_free, first_free_le, first_free-get_or, count, count-set, get_or-set,
  slot_get-some, inc32-count, dec32-count,
}
use uet_ref_prov.Dev.State.{Status, st_einval, Mr, Dev, max_mrs, zero_mr}
use uet_ref_prov.Dev.Qps.{qp_at, qp_get, detach_mr}
use uet_ref_prov.Dev.Mrs.{
  mr_used, mr_at, mr_get, MrArgs, RegLib, Check, refuse, accept, waits, written_mr, mr_put,
  mr_reg_checked, mr_reg, check_class, mr_close, mr_dereg_at, mr_dereg, attached_mr, mr_attach_at,
  mr_attach, mr_detach_at, mr_detach,
}
use uet_ref_prov.Dev.Mrs.Invariant.{mr_clean, MrsValid}

-- A write of a clean region that is in use as much as the one before.
set-clean :
    {mrs : List Mr} {live : ℕ} (w : MrsValid mrs live) (i : ℕ) (v : Mr)
    → i < length mrs
    → mr_clean v ≡ true
    → (k : ℕ) → mr_clean (get_or (set mrs i v) k zero_mr) ≡ true
set-clean {mrs = mrs} w i v h c k =
    rw (get_or-set mrs i k v zero_mr h)
      (elim (Bool-cases (k == i)) [ inl q ↦ rw q c | inr q ↦ rw q (w.clean k) ])

MrsValid-same :
    {mrs : List Mr} {live : ℕ} (w : MrsValid mrs live) (i : ℕ) (v : Mr)
    → i < length mrs
    → mr_clean v ≡ true
    → mr_used v ≡ mr_used (get_or mrs i zero_mr)
    → MrsValid (set mrs i v) live
MrsValid-same {mrs = mrs} w i v h c u = record {
  mrs_length = length-set mrs i v ∙ w.mrs_length;
  mrs_live = omega (arith, w.mrs_live, count-set mr_used mrs i v zero_mr h, ap bit u);
  clean = set-clean w i v h c;
}

MrsValid-fill :
    {mrs : List Mr} {live : ℕ} (w : MrsValid mrs live) (i : ℕ) (v : Mr)
    → i < length mrs
    → mr_clean v ≡ true
    → mr_used (get_or mrs i zero_mr) ≡ false
    → mr_used v ≡ true
    → MrsValid (set mrs i v) (inc32 live)
MrsValid-fill {mrs = mrs} {live = live} w i v h c old new = record {
  mrs_length = length-set mrs i v ∙ w.mrs_length;
  mrs_live =
      inc32-count mr_used mrs live i v zero_mr w.mrs_live (omega (arith, w.mrs_length)) h old new;
  clean = set-clean w i v h c;
}

MrsValid-zero :
    {mrs : List Mr} {live : ℕ} (w : MrsValid mrs live) (i : ℕ)
    → i < length mrs
    → mr_used (get_or mrs i zero_mr) ≡ true
    → MrsValid (set mrs i zero_mr) (dec32 live)
MrsValid-zero {mrs = mrs} {live = live} w i h old = record {
  mrs_length = length-set mrs i zero_mr ∙ w.mrs_length;
  mrs_live =
      dec32-count mr_used mrs live i zero_mr zero_mr w.mrs_live (omega (arith, w.mrs_length)) h old
        refl;
  clean = set-clean w i zero_mr h refl;
}

abbrev MrsOk : Dev → Type 0
MrsOk d = MrsValid d.mrs d.mrs_live

written-clean :
    (m : Mr) (args : MrArgs) (mr key job_id : ℕ)
    → mr_clean m ≡ true
    → mr_used m ≡ false
    → mr_clean (written_mr m args mr key job_id) ≡ true
written-clean m args mr key job_id c u = ground arith

mr_put-MrsValid :
    (lib : RegLib) (d : Dev) (args : MrArgs) (i job_id : ℕ) (o : Option ℕ)
    → MrsOk d
    → i < length d.mrs
    → mr_used (mr_at d i) ≡ false
    → MrsOk (mr_put lib d args i job_id o).0
mr_put-MrsValid lib d args i job_id none w h u = w
mr_put-MrsValid lib d args i job_id (some mr) w h u = elim (Bool-cases (not lib.set_access)) [
  | inl a ↦ rw a w
  | inr a ↦ elim (Bool-cases (not (waits args.access_class) && not lib.enable)) [
    | inl b ↦ rw (a, b) w
    | inr b ↦
        rw (a, b)
          (MrsValid-fill w i (written_mr (mr_at d i) args mr lib.key job_id) h
            (written-clean (mr_at d i) args mr lib.key job_id (w.clean i) u) u refl)
  ]
]

mr_reg_checked-MrsValid :
    (lib : RegLib) (d : Dev) (args : MrArgs) (i : ℕ) (c : Check)
    → MrsOk d
    → i < length d.mrs
    → mr_used (mr_at d i) ≡ false
    → MrsOk (mr_reg_checked lib d args i c).0
mr_reg_checked-MrsValid lib d args i (refuse s) w h u = w
mr_reg_checked-MrsValid lib d args i (accept job_id) w h u =
    mr_put-MrsValid lib d args i job_id lib.reg w h u

pub mr_reg-MrsValid :
    (lib : RegLib) (d : Dev) (args : MrArgs) → MrsOk d → MrsOk (mr_reg lib d args).0
unfolding mr_reg
mr_reg-MrsValid lib d args w = elim (Bool-cases (leb 3 args.pbl_level)) [
  | inl a ↦ rw a w
  | inr a ↦ elim (Bool-cases (first_free mr_used d.mrs == max_mrs)) [
    | inl b ↦ rw (a, b) w
    | inr b ↦
        rw (a, b)
          (mr_reg_checked-MrsValid lib d args (first_free mr_used d.mrs) (check_class d args) w
            (inside b) (first_free-get_or mr_used d.mrs zero_mr (inside b)))
  ]
]
  where
    inside : (first_free mr_used d.mrs == max_mrs) ≡ false → first_free mr_used d.mrs < length d.mrs
    inside b = omega (arith, ==_ne _ _ b, w.mrs_length, first_free_le mr_used d.mrs)

-- The slot of a region that a handle names.
mr_slot :
    (d : Dev) (handle i : ℕ)
    → MrsOk d
    → mr_get d handle ≡ some i
    → (i < length d.mrs) × (mr_used (mr_at d i) ≡ true)
mr_slot d handle i w e =
    let g = slot_get-some max_mrs mr_used d.mrs zero_mr handle i e in
    (omega (arith, g.0, w.mrs_length), g.2)

mr_close-MrsValid :
    (d : Dev) (i : ℕ) (m : Mr) (closes : Bool)
    → MrsOk d
    → i < length d.mrs
    → mr_used (mr_at d i) ≡ true
    → mr_clean m ≡ true
    → mr_used m ≡ mr_used (mr_at d i)
    → MrsOk (mr_close d i m closes).0
mr_close-MrsValid d i m true w h u c s = MrsValid-zero w i h u
mr_close-MrsValid d i m false w h u c s = MrsValid-same w i m h c s

off-clean : (m : Mr) → mr_used m ≡ true → mr_clean (record m { enabled = false; qp = 0 }) ≡ true
off-clean m u = ground arith

mr_dereg_at-MrsValid :
    (disables closes : Bool) (d : Dev) (handle : ℕ) (o : Option ℕ)
    → MrsOk d
    → mr_get d handle ≡ o
    → MrsOk (mr_dereg_at disables closes d o).0
mr_dereg_at-MrsValid disables closes d handle none w e = w
mr_dereg_at-MrsValid disables closes d handle (some i) w e =
    let g = mr_slot d handle i w e in
    if_both (λ (u : Dev × Status). MrsOk u.0) (mr_at d i).enabled
      (if not disables
        then (d, st_einval)
        else mr_close d i (record (mr_at d i) { enabled = false; qp = 0 }) closes)
      (mr_close d i (mr_at d i) closes)
      (if_both (λ (u : Dev × Status). MrsOk u.0) (not disables) (d, st_einval)
        (mr_close d i (record (mr_at d i) { enabled = false; qp = 0 }) closes) w
        (mr_close-MrsValid d i (record (mr_at d i) { enabled = false; qp = 0 }) closes w g.0 g.1
          (off-clean (mr_at d i) g.1) refl))
      (mr_close-MrsValid d i (mr_at d i) closes w g.0 g.1 (w.clean i) refl)

pub mr_dereg-MrsValid :
    (disables closes : Bool) (d : Dev) (handle : ℕ)
    → MrsOk d
    → MrsOk (mr_dereg disables closes d handle).0
unfolding mr_dereg
mr_dereg-MrsValid disables closes d handle w =
    mr_dereg_at-MrsValid disables closes d handle (mr_get d handle) w refl

loose-clean :
    (m : Mr)
    → mr_used m ≡ true
    → not (m.qp == 0) ≡ false
    → mr_clean (record m { enabled = false }) ≡ true
loose-clean m u e = ground arith

attached-clean : (m : Mr) (qp : ℕ) → mr_used m ≡ true → mr_clean (attached_mr m qp) ≡ true
attached-clean m qp u = ground arith

mr_attach_at-MrsValid :
    (disables binds : Bool) (d : Dev) (mr_handle qp_handle : ℕ) (om oq : Option ℕ)
    → MrsOk d
    → mr_get d mr_handle ≡ om
    → MrsOk (mr_attach_at disables binds d qp_handle om oq).0
mr_attach_at-MrsValid disables binds d mr_handle qp_handle none oq w e = w
mr_attach_at-MrsValid disables binds d mr_handle qp_handle (some i) none w e = w
mr_attach_at-MrsValid disables binds d mr_handle qp_handle (some i) (some q) w e =
    let g = mr_slot d mr_handle i w e in
    elim (Bool-cases (not ((mr_at d i).qp == 0))) [
      | inl a ↦ rw a w
      | inr a ↦ elim (Bool-cases (not ((mr_at d i).pd == (qp_at d q).pd))) [
        | inl b ↦ rw (a, b) w
        | inr b ↦ elim (Bool-cases ((mr_at d i).enabled && not disables)) [
          | inl c ↦ rw (a, b, c) w
          | inr c ↦ elim (Bool-cases (not binds)) [
            | inl f ↦
                rw (a, b, c, f)
                  (MrsValid-same w i (record (mr_at d i) { enabled = false }) g.0
                    (loose-clean (mr_at d i) g.1 a) refl)
            | inr f ↦
                rw (a, b, c, f)
                  (MrsValid-same w i (attached_mr (mr_at d i) (qp_handle % 2 ^ 32)) g.0
                    (attached-clean (mr_at d i) (qp_handle % 2 ^ 32) g.1) refl)
          ]
        ]
      ]
    ]

pub mr_attach-MrsValid :
    (disables binds : Bool) (d : Dev) (mr_handle qp_handle : ℕ)
    → MrsOk d
    → MrsOk (mr_attach disables binds d mr_handle qp_handle).0
unfolding mr_attach
mr_attach-MrsValid disables binds d mr_handle qp_handle w =
    mr_attach_at-MrsValid disables binds d mr_handle qp_handle (mr_get d mr_handle)
      (qp_get d qp_handle) w refl

mr_detach_at-MrsValid :
    (disables : Bool) (d : Dev) (handle : ℕ) (o : Option ℕ)
    → MrsOk d
    → mr_get d handle ≡ o
    → MrsOk (mr_detach_at disables d o).0
mr_detach_at-MrsValid disables d handle none w e = w
mr_detach_at-MrsValid disables d handle (some i) w e =
    let g = mr_slot d handle i w e in
    elim (Bool-cases ((mr_at d i).qp == 0)) [
      | inl a ↦ rw a w
      | inr a ↦ elim (Bool-cases (not disables)) [
        | inl b ↦ rw (a, b) w
        | inr b ↦
            rw (a, b)
              (MrsValid-same w i (record (mr_at d i) { qp = 0; enabled = false }) g.0
                (off-clean (mr_at d i) g.1) refl)
      ]
    ]

pub mr_detach-MrsValid :
    (disables : Bool) (d : Dev) (handle : ℕ) → MrsOk d → MrsOk (mr_detach disables d handle).0
unfolding mr_detach
mr_detach-MrsValid disables d handle w =
    mr_detach_at-MrsValid disables d handle (mr_get d handle) w refl

-- The loop of `uet_dev_qp_destroy` over the regions.
detach_mr-clean : (h : ℕ) (m : Mr) → mr_clean m ≡ true → mr_clean (detach_mr h m) ≡ true
detach_mr-clean h m c = ground arith

detach_mr-used : (h : ℕ) (m : Mr) → mr_used (detach_mr h m) ≡ mr_used m
detach_mr-used h m = ground arith

count-detach : (h : ℕ) (ms : List Mr) → count mr_used (map (detach_mr h) ms) ≡ count mr_used ms
count-detach h [] = refl
count-detach h (m ∷ ms) = omega (arith, ap bit (detach_mr-used h m), count-detach h ms)

get_or-detach :
    (h : ℕ) (ms : List Mr) (k : ℕ)
    → get_or (map (detach_mr h) ms) k zero_mr ≡ detach_mr h (get_or ms k zero_mr)
get_or-detach h [] k = refl
get_or-detach h (m ∷ ms) zero = refl
get_or-detach h (m ∷ ms) (suc k) = get_or-detach h ms k

pub detach-MrsValid :
    (h : ℕ) (mrs : List Mr) (live : ℕ) → MrsValid mrs live → MrsValid (map (detach_mr h) mrs) live
detach-MrsValid h mrs live w = record {
  mrs_length = length-map mrs (detach_mr h) ∙ w.mrs_length;
  mrs_live = w.mrs_live ∙ sym (count-detach h mrs);
  clean = λ k.
      ap mr_clean (get_or-detach h mrs k) ∙ detach_mr-clean h (get_or mrs k zero_mr) (w.clean k);
}
