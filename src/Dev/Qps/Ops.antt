-- ===== src/Dev/Qps/Ops.antt =====
-- Every operation of uet_vfio/uet_dev_objs.c on queue pairs and completion queues keeps them valid.
use uet_ref_prov.Base.{
  ℕ, ◌<◌, ◌≡◌, refl, sym, ap, ◌∙◌, subst, Bool, true, false, not, ◌&&◌, Option, none, some, ◌==◌,
  ltb, get_or, set, length, arith, Bool-cases, ==_iff, inl, inr, ==_ne,
}
use mathlib.Core.Bool.{false≢true}
use uet_ref_prov.Dev.Slots.{
  bit, inc32, first_free, any_slot, count, count-set, first_free_le, first_free-get_or,
  slot_get-some, inside_table, inc32-count, dec32-count,
}
use uet_ref_prov.Dev.State.{Status, Qp, Dev, zero_cq, zero_qp, max_cqs, max_qps, max_job_keys}
use uet_ref_prov.Dev.Cqs.{
  CqArgs, cq_used, cq_at, cq_get, cq_args_bad, new_cq, cq_create, cq_destroy_at, cq_destroy,
}
use uet_ref_prov.Dev.Qps.{
  QpArgs, Bringup, qp_used, qp_at, qp_get, bound_more, bound_less, bind_cqs, unbind_cqs, begun_qp,
  ringed_qp, new_qp, bringup_fails, memory_fails, qp_bring_up, qp_create_at, qp_create, closing_qp,
  qp_free, destroyed_qp, qp_destroy_at, qp_destroy, qp_retire, is_absolute, no_jkey, closing_qpn,
  ep_args,
}
use uet_ref_prov.Dev.Qps.Invariant.{qp_open, qp_closing, QpsValid, QueuesValid}
use uet_ref_prov.Dev.Qps.Bound.{unused-bound, QpsValid-cq, QpsValid-same}
use uet_ref_prov.Dev.Qps.Refs.{
  QpsValid-bind, QpsValid-unbind, count-touch, cq_get-slot, cq_get-named, bound_less-used,
}

pub cq_create-QueuesValid :
    (d : Dev) (args : CqArgs) → QueuesValid d → QueuesValid (cq_create d args).0
unfolding cq_create
cq_create-QueuesValid d args w = elim (Bool-cases (cq_args_bad args)) [
  | inl a ↦ rw a w
  | inr a ↦ elim (Bool-cases (first_free cq_used d.cqs == max_cqs)) [
    | inl b ↦ rw (a, b) w
    | inr b ↦
        rw (a, b)
          (record {
            valid =
                QpsValid-cq w.valid (first_free cq_used d.cqs) (new_cq args)
                  (omega (arith, inside b, w.valid.cqs_length))
                  (sym (unused-bound w.valid (first_free cq_used d.cqs) (idle b))) (inl refl);
            qps_live = w.qps_live;
            qps_closing = w.qps_closing;
            cqs_live =
                inc32-count cq_used d.cqs d.cqs_live (first_free cq_used d.cqs) (new_cq args)
                  zero_cq w.cqs_live (omega (arith, w.valid.cqs_length)) (inside b) (idle b) refl;
          })
  ]
]
  where
    inside : (first_free cq_used d.cqs == max_cqs) ≡ false → first_free cq_used d.cqs < length d.cqs
    inside b = omega (arith, ==_ne _ _ b, w.valid.cqs_length, first_free_le cq_used d.cqs)

    idle :
        (first_free cq_used d.cqs == max_cqs) ≡ false
        → cq_used (get_or d.cqs (first_free cq_used d.cqs) zero_cq) ≡ false
    idle b =
        first_free-get_or cq_used d.cqs zero_cq
          (omega (arith, ==_ne _ _ b, w.valid.cqs_length, first_free_le cq_used d.cqs))

cq_destroy_at-QueuesValid :
    (d : Dev) (handle : ℕ) (o : Option ℕ)
    → QueuesValid d
    → cq_get d handle ≡ o
    → QueuesValid (cq_destroy_at d o).0
cq_destroy_at-QueuesValid d handle none w e = w
cq_destroy_at-QueuesValid d handle (some i) w e =
    let g = slot_get-some max_cqs cq_used d.cqs zero_cq handle i e in
    elim (Bool-cases ((cq_at d i).bound_qps == 0)) [
      | inl b ↦ rw b (record {
        valid =
            QpsValid-cq w.valid i zero_cq g.0 (sym ((==_iff (cq_at d i).bound_qps 0).0 b))
              (inr ((==_iff (cq_at d i).bound_qps 0).0 b));
        qps_live = w.qps_live;
        qps_closing = w.qps_closing;
        cqs_live =
            dec32-count cq_used d.cqs d.cqs_live i zero_cq zero_cq w.cqs_live
              (omega (arith, w.valid.cqs_length)) (omega (arith, g.0, w.valid.cqs_length)) g.2 refl;
      })
      | inr b ↦ rw b w
    ]

pub cq_destroy-QueuesValid :
    (d : Dev) (handle : ℕ) → QueuesValid d → QueuesValid (cq_destroy d handle).0
unfolding cq_destroy
cq_destroy-QueuesValid d handle w = cq_destroy_at-QueuesValid d handle (cq_get d handle) w refl

-- A slot in no use may take any record that is in no use.
QueuesValid-idle :
    {d : Dev} (w : QueuesValid d) (i : ℕ) (v : Qp)
    → i < length d.qps
    → qp_used (qp_at d i) ≡ false
    → qp_used v ≡ false
    → QueuesValid (record d { qps = set d.qps i v })
QueuesValid-idle {d = d} w i v h old new = record {
  valid =
      QpsValid-same w.valid i v h (rw (old, new) refl) (λ o. absurd (false≢true (rw new refl ∙ o)));
  qps_live =
      omega (arith, w.qps_live, count-set qp_used d.qps i v zero_qp h, ap bit old, ap bit new);
  qps_closing = omega (
    arith,
    w.qps_closing,
    count-set qp_closing d.qps i v zero_qp h,
    ap (λ b. bit (b && (qp_at d i).closing)) old,
    ap (λ b. bit (b && v.closing)) new,
  );
  cqs_live = w.cqs_live;
}

-- An open queue pair of two queues in use.
new_qp-QueuesValid :
    {d : Dev} (w : QueuesValid d) (ep : ℕ) (args : QpArgs) (i s r : ℕ)
    → i < length d.qps
    → qp_used (qp_at d i) ≡ false
    → cq_get d args.send_cq ≡ some s
    → cq_get d args.recv_cq ≡ some r
    → QueuesValid (record d {
      qps = set d.qps i (new_qp ep args);
      cqs = bind_cqs d s r;
      qps_live = inc32 d.qps_live;
    })
new_qp-QueuesValid {d = d} w ep args i s r h old es er =
    let gs = cq_get-slot d args.send_cq s w.valid.cqs_length es in
    let gr = cq_get-slot d args.recv_cq r w.valid.cqs_length er in
    (record {
      valid = QpsValid-bind d w.valid i s r (new_qp ep args) h (rw old refl) refl es er;
      qps_live =
          inc32-count qp_used d.qps d.qps_live i (new_qp ep args) zero_qp w.qps_live
            (omega (arith, w.valid.qps_length)) h old refl;
      qps_closing = omega (
        arith,
        w.qps_closing,
        count-set qp_closing d.qps i (new_qp ep args) zero_qp h,
        ap (λ b. bit (b && (qp_at d i).closing)) old,
      );
      cqs_live = w.cqs_live ∙ sym (count-touch bound_more d.cqs s r (λ c. refl) gs.0 gr.0);
    })

qp_bring_up-QueuesValid :
    (lib : Bringup) (d : Dev) (args : QpArgs) (i s r : ℕ) (o : Option ℕ)
    → QueuesValid d
    → i < length d.qps
    → qp_used (qp_at d i) ≡ false
    → cq_get d args.send_cq ≡ some s
    → cq_get d args.recv_cq ≡ some r
    → QueuesValid (qp_bring_up lib d args i s r o).0
qp_bring_up-QueuesValid lib d args i s r none w h old es er =
    QueuesValid-idle w i zero_qp h old refl
qp_bring_up-QueuesValid lib d args i s r (some ep) w h old es er =
    elim (Bool-cases (bringup_fails lib ep args)) [
      | inl a ↦ rw a (QueuesValid-idle w i (begun_qp ep) h old refl)
      | inr a ↦ elim (Bool-cases (memory_fails lib args)) [
        | inl b ↦ rw (a, b) (QueuesValid-idle w i (ringed_qp ep args) h old refl)
        | inr b ↦ rw (a, b) (new_qp-QueuesValid w ep args i s r h old es er)
      ]
    ]

-- The device is valid if the operation returns.
abbrev IfReturned : Option (Dev × (Status × ℕ)) → Type 0
IfReturned none = Unit
IfReturned (some u) = QueuesValid u.0

qp_create_at-QueuesValid :
    (lib : Bringup) (d : Dev) (args : QpArgs) (scq rcq : Option ℕ)
    → QueuesValid d
    → cq_get d args.send_cq ≡ scq
    → cq_get d args.recv_cq ≡ rcq
    → IfReturned (qp_create_at lib d args scq rcq)
qp_create_at-QueuesValid lib d args none rcq w es er = w
qp_create_at-QueuesValid lib d args (some s) none w es er = w
qp_create_at-QueuesValid lib d args (some s) (some r) w es er =
    elim (Bool-cases (not (is_absolute args) && no_jkey d args.jkey_handle)) [
      | inl a ↦ rw a w
      | inr a ↦ elim (Bool-cases (any_slot (closing_qpn args.qpn) d.qps)) [
        | inl b ↦ rw (a, b) w
        | inr b ↦ elim (Bool-cases (first_free qp_used d.qps == max_qps)) [
          | inl c ↦ rw (a, b, c) w
          | inr c ↦ elim (Bool-cases (ltb max_job_keys args.jkey_handle)) [
            | inl f ↦ rw (a, b, c, f) tt
            | inr f ↦
                rw (a, b, c, f)
                  (qp_bring_up-QueuesValid lib d args (first_free qp_used d.qps) s r
                    (lib.endpoint (ep_args d args)) w (inside c)
                    (first_free-get_or qp_used d.qps zero_qp (inside c)) es er)
          ]
        ]
      ]
    ]
  where
    inside : (first_free qp_used d.qps == max_qps) ≡ false → first_free qp_used d.qps < length d.qps
    inside c = omega (arith, ==_ne _ _ c, w.valid.qps_length, first_free_le qp_used d.qps)

pub qp_create-QueuesValid :
    (lib : Bringup) (d : Dev) (args : QpArgs) (u : Dev × (Status × ℕ))
    → QueuesValid d
    → qp_create lib d args ≡ some u
    → QueuesValid u.0
unfolding qp_create
qp_create-QueuesValid lib d args u w e = subst IfReturned e (
    qp_create_at-QueuesValid lib d args (cq_get d args.send_cq) (cq_get d args.recv_cq) w refl refl)

-- What the device is once the references of the open queue pair in slot `i` are dropped.
unbound :
    {d : Dev} (w : QueuesValid d) (i : ℕ) (v : Qp)
    → qp_open (qp_at d i) ≡ true
    → qp_open v ≡ false
    → QpsValid
        (set d.qps i v)
        (unbind_cqs d (cq_get d (qp_at d i).send_cq) (cq_get d (qp_at d i).recv_cq))
      × (d.cqs_live
          ≡ count cq_used
              (unbind_cqs d (cq_get d (qp_at d i).send_cq) (cq_get d (qp_at d i).recv_cq)))
unbound {d = d} w i v old new =
    let n = w.valid.refs i old in
    let fs = cq_get-named d (qp_at d i).send_cq w.valid.cqs_length n.0 in
    let fr = cq_get-named d (qp_at d i).recv_cq w.valid.cqs_length n.1 in
    let gs = cq_get-slot d (qp_at d i).send_cq fs.0 w.valid.cqs_length fs.1 in
    let gr = cq_get-slot d (qp_at d i).recv_cq fr.0 w.valid.cqs_length fr.1 in
    rw (fs.1, fr.1)
      (
        QpsValid-unbind d w.valid i fs.0 fr.0 v old new fs.1 fr.1,
        w.cqs_live ∙ sym (count-touch bound_less d.cqs fs.0 fr.0 bound_less-used gs.0 gr.0),
      )

open-used : (q : Qp) → qp_open q ≡ true → (qp_used q ≡ true) × (qp_closing q ≡ false)
open-used q o = (ground arith, ground arith)

closing-closed : (q : Qp) → qp_open (closing_qp q) ≡ false
closing-closed q = ground arith

closing-counted : (q : Qp) → qp_open q ≡ true → qp_closing (closing_qp q) ≡ true
closing-counted q o = ground arith

destroyed_qp-QueuesValid :
    (closes : Bool) (d : Dev) (handle i : ℕ)
    → QueuesValid d
    → qp_open (qp_at d i) ≡ true
    → QueuesValid (destroyed_qp closes d handle i)
unfolding destroyed_qp qp_free
destroyed_qp-QueuesValid true d handle i w o =
    let h = inside_table qp_open d.qps i zero_qp refl o in
    let m = unbound w i zero_qp o refl in
    (record {
      valid = m.0;
      qps_live =
          dec32-count qp_used d.qps d.qps_live i zero_qp zero_qp w.qps_live
            (omega (arith, w.valid.qps_length)) h (open-used (qp_at d i) o).0 refl;
      qps_closing = omega (
        arith,
        w.qps_closing,
        count-set qp_closing d.qps i zero_qp zero_qp h,
        ap bit (open-used (qp_at d i) o).1,
      );
      cqs_live = m.1;
    })
destroyed_qp-QueuesValid false d handle i w o =
    let h = inside_table qp_open d.qps i zero_qp refl o in
    let m = unbound w i (closing_qp (qp_at d i)) o (closing-closed (qp_at d i)) in
    (record {
      valid = m.0;
      qps_live =
          omega (arith, w.qps_live, count-set qp_used d.qps i (closing_qp (qp_at d i)) zero_qp h);
      qps_closing =
          inc32-count qp_closing d.qps d.qps_closing i (closing_qp (qp_at d i)) zero_qp
            w.qps_closing (omega (arith, w.valid.qps_length)) h (open-used (qp_at d i) o).1
            (closing-counted (qp_at d i) o);
      cqs_live = m.1;
    })

qp_destroy_at-QueuesValid :
    (closes : Bool) (d : Dev) (handle : ℕ) (o : Option ℕ)
    → QueuesValid d
    → ((i : ℕ) → o ≡ some i → qp_open (qp_at d i) ≡ true)
    → QueuesValid (qp_destroy_at closes d handle o).0
qp_destroy_at-QueuesValid closes d handle none w fresh = w
qp_destroy_at-QueuesValid closes d handle (some i) w fresh =
    destroyed_qp-QueuesValid closes d handle i w (fresh i refl)

pub qp_destroy-QueuesValid :
    (closes : Bool) (d : Dev) (handle : ℕ)
    → QueuesValid d
    → ((i : ℕ) → qp_get d handle ≡ some i → qp_open (qp_at d i) ≡ true)
    → QueuesValid (qp_destroy closes d handle).0
unfolding qp_destroy
qp_destroy-QueuesValid closes d handle w fresh =
    qp_destroy_at-QueuesValid closes d handle (qp_get d handle) w fresh

closing-shut : (q : Qp) → qp_closing q ≡ true → (qp_used q ≡ true) × (qp_open q ≡ false)
closing-shut q o = (ground arith, ground arith)

-- A slot may take a queue pair in the same use, with the same references.
pub QueuesValid-same :
    {d : Dev} (w : QueuesValid d) (i flushed : ℕ) (v : Qp)
    → i < length d.qps
    → (v.used ≡ (qp_at d i).used)
      × (v.closing ≡ (qp_at d i).closing)
      × (v.send_cq ≡ (qp_at d i).send_cq)
      × (v.recv_cq ≡ (qp_at d i).recv_cq)
    → QueuesValid (record d { qps = set d.qps i v; flushed = flushed })
QueuesValid-same {d = d} w i flushed v h e = record {
  valid = QpsValid-same w.valid i v h (rw (e.0, e.1) refl) (λ o. (e.2, e.3));
  qps_live = omega (arith, w.qps_live, count-set qp_used d.qps i v zero_qp h, ap bit e.0);
  qps_closing =
      omega (arith, w.qps_closing, count-set qp_closing d.qps i v zero_qp h, ap bit same_closing);
  cqs_live = w.cqs_live;
}
  where
    same_closing : qp_closing v ≡ qp_closing (qp_at d i)
    same_closing = rw (e.0, e.1) refl

QueuesValid-flushed : {d : Dev} (w : QueuesValid d) (n : ℕ) → QueuesValid (record d { flushed = n })
QueuesValid-flushed w n = record {
  valid = w.valid;
  qps_live = w.qps_live;
  qps_closing = w.qps_closing;
  cqs_live = w.cqs_live;
}

-- The sweep retires a queue pair that is closing.
pub qp_retire-QueuesValid :
    (flushed : ℕ) (closes : Bool) (d : Dev) (i : ℕ)
    → QueuesValid d
    → qp_closing (qp_at d i) ≡ true
    → QueuesValid (qp_retire flushed closes d i)
unfolding qp_retire qp_free
qp_retire-QueuesValid flushed closes d i w o = elim (Bool-cases (ltb 0 flushed)) [
  | inl a ↦ rw a (QueuesValid-flushed w _)
  | inr a ↦ elim (Bool-cases closes) [
    | inl b ↦
        rw (a, b)
          (record {
            valid =
                QpsValid-same w.valid i zero_qp inside (sym (closing-shut (qp_at d i) o).1)
                  (λ q. absurd (false≢true q));
            qps_live =
                dec32-count qp_used d.qps d.qps_live i zero_qp zero_qp w.qps_live
                  (omega (arith, w.valid.qps_length)) inside (closing-shut (qp_at d i) o).0 refl;
            qps_closing =
                dec32-count qp_closing d.qps d.qps_closing i zero_qp zero_qp w.qps_closing
                  (omega (arith, w.valid.qps_length)) inside o refl;
            cqs_live = w.cqs_live;
          })
    | inr b ↦
        rw (a, b)
          (QueuesValid-same w i d.flushed (record (qp_at d i) { retire_traced = true }) inside
            (refl, refl, refl, refl))
  ]
]
  where
    inside : i < length d.qps
    inside = inside_table qp_closing d.qps i zero_qp refl o
