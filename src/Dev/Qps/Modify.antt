-- ===== src/Dev/Qps/Modify.antt =====
-- The states that `uet_dev_qp_modify` of uet_vfio/uet_dev_objs.c moves a queue pair between.
use uet_ref_prov.Base.{
  not, if_both, ℕ, ◌+◌, ◌%◌, ◌^◌, ◌<◌, ◌≡◌, refl, Bool, true, false, ◌&&◌, ◌||◌, Option, none, some,
  ◌==◌, length, arith, ◌⊎◌,
}
use uet_ref_prov.Dev.Slots.{slot_get-some, inside_table}
use uet_ref_prov.Dev.State.{
  Status, st_ok, st_einval, qps_reset, qps_rts, qps_err, Qp, Dev, zero_qp, max_qps,
}
use uet_ref_prov.Dev.Qps.{
  Answers, qp_used, qp_at, qp_get, mtu_differs, modify_qp, modify_done, qp_modify_at, qp_modify,
}
use uet_ref_prov.Dev.Qps.Invariant.{QueuesValid}
use uet_ref_prov.Dev.Qps.Ops.{QueuesValid-same}

modify_qp-keeps :
    (lib : Answers) (q : Qp) (next mtu : ℕ)
    → ((modify_qp lib q next mtu).0.used ≡ q.used)
      × ((modify_qp lib q next mtu).0.closing ≡ q.closing)
      × ((modify_qp lib q next mtu).0.send_cq ≡ q.send_cq)
      × ((modify_qp lib q next mtu).0.recv_cq ≡ q.recv_cq)
modify_qp-keeps lib q next mtu = (ground arith, ground arith, ground arith, ground arith)

modify_done-QueuesValid :
    (d : Dev) (i next : ℕ) (q : Qp) (flushed : ℕ) (refused : Bool)
    → QueuesValid d
    → i < length d.qps
    → (q.used ≡ (qp_at d i).used)
      × (q.closing ≡ (qp_at d i).closing)
      × (q.send_cq ≡ (qp_at d i).send_cq)
      × (q.recv_cq ≡ (qp_at d i).recv_cq)
    → QueuesValid (modify_done d i next q flushed refused).0
modify_done-QueuesValid d i next q flushed true w h k = QueuesValid-same w i d.flushed q h k
modify_done-QueuesValid d i next q flushed false w h k =
    QueuesValid-same w i ((d.flushed + flushed) % 2 ^ 32) (record q { state = next }) h k

qp_modify_at-QueuesValid :
    (lib : Answers) (d : Dev) (handle next mtu : ℕ) (o : Option ℕ)
    → QueuesValid d
    → qp_get d handle ≡ o
    → QueuesValid (qp_modify_at lib d next mtu o).0
qp_modify_at-QueuesValid lib d handle next mtu none w e = w
qp_modify_at-QueuesValid lib d handle next mtu (some i) w e =
    if_both (λ (u : Dev × Status). QueuesValid u.0) (qp_at d i).closing (d, st_einval)
      (modify_done d i next (modify_qp lib (qp_at d i) next mtu).0
        (modify_qp lib (qp_at d i) next mtu).1.1 (modify_qp lib (qp_at d i) next mtu).1.0)
      w
      (modify_done-QueuesValid d i next (modify_qp lib (qp_at d i) next mtu).0
        (modify_qp lib (qp_at d i) next mtu).1.1 (modify_qp lib (qp_at d i) next mtu).1.0 w
        (inside_table qp_used d.qps i zero_qp refl
          (slot_get-some max_qps qp_used d.qps zero_qp handle i e).2)
        (modify_qp-keeps lib (qp_at d i) next mtu))

pub qp_modify-QueuesValid :
    (lib : Answers) (d : Dev) (handle next mtu : ℕ)
    → QueuesValid d
    → QueuesValid (qp_modify lib d handle next mtu).0
unfolding qp_modify
qp_modify-QueuesValid lib d handle next mtu w =
    qp_modify_at-QueuesValid lib d handle next mtu (qp_get d handle) w refl

-- The moves that the comment on `uet_dev_qp_modify` lists.
abbrev pub listed : ℕ → ℕ → Bool
listed s next =
    ((s == qps_rts) && (next == qps_err))
    || ((s == qps_err) && (next == qps_reset))
    || ((s == qps_reset) && (next == qps_rts))
    || ((s == qps_rts) && (next == qps_rts))

-- Those that the code makes beside them: any state but RTS may fail, and RESET may stay.
abbrev pub unlisted : ℕ → ℕ → Bool
unlisted s next =
    (not (s == qps_rts) && (next == qps_err)) || ((s == qps_reset) && (next == qps_reset))

unfoldable pub may_move : ℕ → ℕ → Bool
may_move s next = listed s next || unlisted s next

-- The calls of the library that may fail succeed, and the packet size is not changed.
abbrev pub agrees : Answers → Qp → ℕ → Bool
agrees lib q mtu = lib.set_path_mtu && lib.enable && lib.reset && not (mtu_differs q mtu)

-- Every such move is made when the calls of the library that may fail succeed and the packet size is
-- not changed.
pub may_move-modify_qp :
    (lib : Answers) (q : Qp) (next mtu : ℕ)
    → may_move q.state next ≡ true
    → lib.set_path_mtu ≡ true
    → lib.enable ≡ true
    → lib.reset ≡ true
    → mtu_differs q mtu ≡ false
    → (modify_qp lib q next mtu).1.0 ≡ false
unfolding may_move
may_move-modify_qp lib q next mtu m a b c e = ground arith

-- What a call on an open queue pair comes to: it moves, or is refused and stays in its state.
pub Moved : Answers → Dev → ℕ → ℕ → ℕ → Dev × Status → Type 0
Moved lib d i next mtu u =
    ((u.1 ≡ st_ok) × (may_move (qp_at d i).state next ≡ true) × ((qp_at u.0 i).state ≡ next))
    ⊎ ((u.1 ≡ st_einval)
        × ((may_move (qp_at d i).state next && agrees lib (qp_at d i) mtu) ≡ false)
        × ((qp_at u.0 i).state ≡ (qp_at d i).state))
