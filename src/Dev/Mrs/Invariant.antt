-- ===== src/Dev/Mrs/Invariant.antt =====
-- What the device keeps true of its memory regions (uet_vfio/uet_dev_objs.c).
use uet_ref_prov.Base.{ℕ, ◌≡◌, Bool, true, not, ◌&&◌, ◌||◌, List, ◌==◌, get_or, length}
use uet_ref_prov.Dev.Slots.{count}
use uet_ref_prov.Dev.State.{Mr, max_mrs, zero_mr}
use uet_ref_prov.Dev.Mrs.{mr_used}

-- A free slot, which `uet_dev_mr_reg` does not clear, is clear; a region that is attached is live in
-- the library's lookup space.
abbrev pub mr_clean : Mr → Bool
mr_clean m = (m.used || (not m.enabled && (m.qp == 0))) && ((m.qp == 0) || m.enabled)

pub record MrsValid (mrs : List Mr) (live : ℕ) : Type 0 where
  pub mrs_length : length mrs ≡ max_mrs
  pub mrs_live : live ≡ count mr_used mrs
  pub clean : (i : ℕ) → mr_clean (get_or mrs i zero_mr) ≡ true
