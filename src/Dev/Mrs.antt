-- ===== src/Dev/Mrs.antt =====
-- uet_vfio/uet_dev_objs.c: memory regions. The library's answers are arguments; what is passed to
-- `uet_mr_reg_pbl` is left out.
pub mod Invariant
pub mod Ops
use uet_ref_prov.Base.{
  ℕ, zero, suc, ◌+◌, ◌-◌, ◌%◌, ◌^◌, Bool, true, false, not, ◌&&◌, ◌||◌, Option, none, some, List,
  [], ◌∷◌, ◌==◌, ltb, leb, if◌then◌else◌, get_or, set,
}
use uet_ref_prov.Dev.Slots.{inc32, dec32, first_free, slot_get}
use uet_ref_prov.Dev.State.{
  Status, st_ok, st_einval, st_enospc, st_eexist, st_enoent, st_ebusy, max_mrs, max_job_keys, Jkey,
  Mr, Dev, zero_mr,
}
use uet_ref_prov.Dev.Jobs.{job_at, job_get, jkey_at, jkey_value}
use uet_ref_prov.Dev.Qps.{qp_at, qp_get, no_jkey}

abbrev pub mr_used : Mr → Bool
mr_used m = m.used

abbrev pub mr_at : Dev → ℕ → Mr
mr_at dev i = get_or dev.mrs i zero_mr

-- uet_dev_mr_get
abbrev pub mr_get : Dev → ℕ → Option ℕ
mr_get dev handle = slot_get max_mrs mr_used dev.mrs zero_mr handle

-- The loop of `uet_dev_mr_by_key` from slot `i` on.
abbrev pub mr_find : ℕ → ℕ → List Mr → Option ℕ
mr_find key i [] = none
mr_find key i (m ∷ ms) =
    let rest = mr_find key (i + 1) ms in
    if m.used && ((m.key == key) || (i + 1 == key)) then some i else rest

-- uet_dev_mr_by_key: the slot
unfoldable pub mr_by_key : Dev → ℕ → Option ℕ
mr_by_key dev key = if key == 0 then none else mr_find key 0 dev.mrs

-- UET_DEV_MR_CLASS_UNRESTRICTED, ...
abbrev pub class_unrestricted : ℕ
class_unrestricted = 0

abbrev pub class_ri : ℕ
class_ri = 1

abbrev pub class_job : ℕ
class_job = 2

abbrev pub class_ri_job : ℕ
class_ri_job = 3

-- `struct uet_dev_admin_mr_reg` and the other arguments of `uet_dev_mr_reg` that its answer depends on
pub record MrArgs : Type 0 where
  pub pd : ℕ
  pub jkey_handle : ℕ
  pub jkey : ℕ
  pub access_class : ℕ
  pub pbl_level : ℕ
  pub base_va : ℕ
  pub len : ℕ

-- The answers of `uet_mr_reg_pbl`, `uet_mr_set_access`, `uet_mr_enable` and `uet_mr_key`.
pub record RegLib : Type 0 where
  pub reg : Option ℕ
  pub set_access : Bool
  pub enable : Bool
  pub key : ℕ

-- The slot, one-based, of the first key in use with this value, 0 if none.
abbrev pub jkey_slot : ℕ → ℕ → List Jkey → ℕ
jkey_slot value i [] = 0
jkey_slot value i (k ∷ ks) =
    let rest = jkey_slot value (i + 1) ks in
    if k.used && (jkey_value (i + 1) == value) then i + 1 else rest

abbrev pub named_jkey : Dev → MrArgs → ℕ
named_jkey dev args =
    if (args.jkey_handle == 0) && not (args.jkey == 0)
    then jkey_slot args.jkey 0 dev.jkeys
    else args.jkey_handle

-- A refusal, or the JobID of the region.
pub data Check : Type 0 where
  refuse : Status → Check
  accept : ℕ → Check

abbrev pub check_job : Dev → Option ℕ → Check
check_job dev none = refuse st_enoent
check_job dev (some i) = accept (job_at dev i).job_id

abbrev pub check_jkey : Dev → MrArgs → ℕ → Check
check_jkey dev args h =
    if no_jkey dev h
    then refuse st_einval
    else if not ((jkey_at dev (h - 1)).pdn == args.pd)
    then refuse st_einval
    else check_job dev (job_get dev (jkey_at dev (h - 1)).job_handle)

abbrev pub check_class : Dev → MrArgs → Check
check_class dev args =
    if leb 4 args.access_class
    then refuse st_einval
    else if leb class_job args.access_class
    then check_jkey dev args (named_jkey dev args)
    else accept 0

-- An RI-restricted region waits for its attach.
abbrev pub waits : ℕ → Bool
waits access_class = (access_class == class_ri) || (access_class == class_ri_job)

-- What is written into the slot, whose `qp` field is left as it is.
abbrev pub written_mr : Mr → MrArgs → ℕ → ℕ → ℕ → Mr
written_mr m args mr key job_id = record m {
  used = true;
  mr = some mr;
  key = key;
  pd = args.pd;
  access_class = args.access_class;
  job_id = job_id;
  base_va = args.base_va;
  len = args.len;
  enabled = if waits args.access_class then m.enabled else true;
}

-- The rest of `uet_dev_mr_reg` for slot `i`: the device, the status, `*out_handle` and `*out_key`
abbrev pub mr_put : RegLib → Dev → MrArgs → ℕ → ℕ → Option ℕ → Dev × (Status × (ℕ × ℕ))
mr_put lib dev args i job_id none = (dev, (st_einval, (0, 0)))
mr_put lib dev args i job_id (some mr) =
    if not lib.set_access
    then (dev, (st_einval, (0, 0)))
    else if not (waits args.access_class) && not lib.enable
    then (dev, (st_einval, (0, 0)))
    else (
      (record dev {
        mrs = set dev.mrs i (written_mr (mr_at dev i) args mr lib.key job_id);
        mrs_live = inc32 dev.mrs_live;
      }),
      (st_ok, (i + 1, lib.key)),
    )

abbrev pub mr_reg_checked : RegLib → Dev → MrArgs → ℕ → Check → Dev × (Status × (ℕ × ℕ))
mr_reg_checked lib dev args i (refuse s) = (dev, (s, (0, 0)))
mr_reg_checked lib dev args i (accept job_id) = mr_put lib dev args i job_id lib.reg

-- uet_dev_mr_reg
unfoldable pub mr_reg : RegLib → Dev → MrArgs → Dev × (Status × (ℕ × ℕ))
mr_reg lib dev args =
    if leb 3 args.pbl_level
    then (dev, (st_einval, (0, 0)))
    else let i = first_free mr_used dev.mrs in
      if i == max_mrs
      then (dev, (st_enospc, (0, 0)))
      else mr_reg_checked lib dev args i (check_class dev args)

-- `uet_dev_mr_dereg` for what `uet_dev_mr_get` returned, and for the region it found
abbrev pub mr_close : Dev → ℕ → Mr → Bool → Dev × Status
mr_close dev i m true =
    ((record dev { mrs = set dev.mrs i zero_mr; mrs_live = dec32 dev.mrs_live }), st_ok)
mr_close dev i m false = (record dev { mrs = set dev.mrs i m }, st_einval)

abbrev pub mr_dereg_at : Bool → Bool → Dev → Option ℕ → Dev × Status
mr_dereg_at disables closes dev none = (dev, st_enoent)
mr_dereg_at disables closes dev (some i) =
    if (mr_at dev i).enabled
    then if not disables
      then (dev, st_einval)
      else mr_close dev i (record (mr_at dev i) { enabled = false; qp = 0 }) closes
    else mr_close dev i (mr_at dev i) closes

-- uet_dev_mr_dereg: whether `uet_mr_disable` and `uet_mr_close` succeed
unfoldable pub mr_dereg : Bool → Bool → Dev → ℕ → Dev × Status
mr_dereg disables closes dev handle = mr_dereg_at disables closes dev (mr_get dev handle)

-- The narrower class of an attached region.
abbrev pub narrow : ℕ → ℕ
narrow c = if c == class_job then class_ri_job else if c == class_unrestricted then class_ri else c

abbrev pub attached_mr : Mr → ℕ → Mr
attached_mr m qp = record m { access_class = narrow m.access_class; qp = qp; enabled = true }

-- `uet_dev_mr_attach` for the slots of the region and of the queue pair
abbrev pub mr_attach_at : Bool → Bool → Dev → ℕ → Option ℕ → Option ℕ → Dev × Status
mr_attach_at disables binds dev qp_handle none oq = (dev, st_enoent)
mr_attach_at disables binds dev qp_handle (some i) none = (dev, st_enoent)
mr_attach_at disables binds dev qp_handle (some i) (some q) =
    if not ((mr_at dev i).qp == 0)
    then (dev, st_eexist)
    else if not ((mr_at dev i).pd == (qp_at dev q).pd)
    then (dev, st_einval)
    else if (mr_at dev i).enabled && not disables
    then (dev, st_ebusy)
    else if not binds
    then (record dev { mrs = set dev.mrs i (record (mr_at dev i) { enabled = false }) }, st_einval)
    else (
      record dev { mrs = set dev.mrs i (attached_mr (mr_at dev i) (qp_handle % 2 ^ 32)) },
      st_ok,
    )

-- uet_dev_mr_attach: whether `uet_mr_disable` succeeds, and `uet_ep_bind_mr` with `uet_mr_enable`
unfoldable pub mr_attach : Bool → Bool → Dev → ℕ → ℕ → Dev × Status
mr_attach disables binds dev mr_handle qp_handle =
    mr_attach_at disables binds dev qp_handle (mr_get dev mr_handle) (qp_get dev qp_handle)

-- `uet_dev_mr_detach` for what `uet_dev_mr_get` returned
abbrev pub mr_detach_at : Bool → Dev → Option ℕ → Dev × Status
mr_detach_at disables dev none = (dev, st_enoent)
mr_detach_at disables dev (some i) =
    if (mr_at dev i).qp == 0 then (dev, st_einval) else if not disables then (dev, st_einval) else (
      record dev { mrs = set dev.mrs i (record (mr_at dev i) { qp = 0; enabled = false }) },
      st_ok,
    )

unfoldable pub mr_detach : Bool → Dev → ℕ → Dev × Status
mr_detach disables dev mr_handle = mr_detach_at disables dev (mr_get dev mr_handle)
