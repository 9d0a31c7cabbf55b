-- ===== src/Dev/Cqs.antt =====
-- uet_vfio/uet_dev_objs.c: address handles and completion queues.
use uet_ref_prov.Base.{
  ℕ, ◌+◌, ◌-◌, Bool, true, not, ◌||◌, Option, none, some, ◌==◌, ltb, leb, if◌then◌else◌, get_or,
  set, bit_and,
}
use uet_ref_prov.Dev.Slots.{inc32, dec32, first_free, slot_get}
use uet_ref_prov.Dev.State.{
  Status, st_ok, st_einval, st_enospc, st_enoent, max_ahs, max_cqs, cq_max_entries, max_db_pages,
  num_vectors, Addr, Ah, RingDesc, Cq, Dev, zero_ah, zero_cq,
}

abbrev pub ah_used : Ah → Bool
ah_used a = a.used

-- uet_dev_ah_get
abbrev pub ah_get : Dev → ℕ → Option ℕ
ah_get dev handle = slot_get max_ahs ah_used dev.ahs zero_ah handle

-- uet_dev_ah_create: the device, the status and `*out_handle`
unfoldable pub ah_create : Dev → ℕ → Addr → Dev × (Status × ℕ)
ah_create dev pd addr =
    let i = first_free ah_used dev.ahs in
    if i == max_ahs then (dev, (st_enospc, 0)) else (
      (record dev {
        ahs = set dev.ahs i (record { used = true; pd = pd; addr = some addr; av = none });
      }),
      (st_ok, i + 1),
    )

-- `uet_dev_ah_destroy` for what `uet_dev_ah_get` returned; the library's answer is not read.
abbrev pub ah_destroy_at : Dev → Option ℕ → Dev × Status
ah_destroy_at dev none = (dev, st_enoent)
ah_destroy_at dev (some i) = (record dev { ahs = set dev.ahs i zero_ah }, st_ok)

unfoldable pub ah_destroy : Dev → ℕ → Dev × Status
ah_destroy dev handle = ah_destroy_at dev (ah_get dev handle)

abbrev pub cq_used : Cq → Bool
cq_used c = c.used

abbrev pub cq_at : Dev → ℕ → Cq
cq_at dev i = get_or dev.cqs i zero_cq

-- uet_dev_cq_get
abbrev pub cq_get : Dev → ℕ → Option ℕ
cq_get dev handle = slot_get max_cqs cq_used dev.cqs zero_cq handle

-- `struct uet_dev_admin_cq_create`
pub record CqArgs : Type 0 where
  pub ring : RingDesc
  pub db_page : ℕ
  pub vector : ℕ

-- `n & (n - 1)`, which is 0 for a power of two
abbrev pub not_power_of_two : ℕ → Bool
not_power_of_two n = not (bit_and n (n - 1) == 0)

-- The guards of `uet_dev_cq_create`.
abbrev pub cq_args_bad : CqArgs → Bool
cq_args_bad args =
    (args.ring.entries == 0)
    || ltb cq_max_entries args.ring.entries
    || not_power_of_two args.ring.entries
    || leb max_db_pages args.db_page
    || leb num_vectors args.vector

-- The completion queue that it writes.
abbrev pub new_cq : CqArgs → Cq
new_cq args = record {
  used = true;
  entries = args.ring.entries;
  bound_qps = 0;
  db_page = args.db_page;
  vector = args.vector;
  ring = record { desc = args.ring; live = not (args.ring.pbl_root == 0) };
}

-- uet_dev_cq_create: the device, the status and `*out_handle`
unfoldable pub cq_create : Dev → CqArgs → Dev × (Status × ℕ)
cq_create dev args =
    if cq_args_bad args
    then (dev, (st_einval, 0))
    else let i = first_free cq_used dev.cqs in
      if i == max_cqs then (dev, (st_enospc, 0)) else (
        (record dev { cqs = set dev.cqs i (new_cq args); cqs_live = inc32 dev.cqs_live }),
        (st_ok, i + 1),
      )

-- `uet_dev_cq_destroy` for what `uet_dev_cq_get` returned
abbrev pub cq_destroy_at : Dev → Option ℕ → Dev × Status
cq_destroy_at dev none = (dev, st_enoent)
cq_destroy_at dev (some i) =
    if not ((cq_at dev i).bound_qps == 0)
    then (dev, st_einval)
    else ((record dev { cqs = set dev.cqs i zero_cq; cqs_live = dec32 dev.cqs_live }), st_ok)

unfoldable pub cq_destroy : Dev → ℕ → Dev × Status
cq_destroy dev handle = cq_destroy_at dev (cq_get dev handle)
