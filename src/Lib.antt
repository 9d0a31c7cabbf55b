-- ===== src/Lib.antt =====
-- The packet delivery sublayer (PDS) of the UET reference provider, the bitmap that its windows
-- are made of, the key rotation of its transport security, the path selection of its congestion
-- control, and the objects of the emulated device (uet_vfio) that a guest drives it through.
--
-- A packet delivery context (PDC, `struct uet_pdc` of uet_pds.c) connects two endpoints. Its
-- sender numbers packets by 32-bit PSNs that wrap and keeps those in flight in a transmit window;
-- its receiver keeps those that have arrived in a receive window. Both windows are a `struct
-- bitmap` (util/bitmap.h, util/bitmap.c) of 128 bits with a packet pointer beside each bit, and a
-- base PSN. The receiver sorts packets into new ones and duplicates, acknowledges the run of
-- arrived packets at the base and shifts its window past it; the sender takes the acknowledgement,
-- the peer's PSN range and the SACK bitmap in, and shifts its window past the acknowledged
-- packets. A PDC that is closing is freed when the acknowledgement of its close command has
-- arrived. What has arrived goes up to the semantic sublayer (SES), in the order of the PSNs where
-- the mode is ROD.
--
-- The device keeps jobs, job keys, address handles, memory regions, completion queues and queue
-- pairs in tables of fixed size. A guest makes and destroys them by commands of the admin queue
-- (uet_vfio/uet_dev_admin.c, uet_vfio/uet_dev_objs.c); what the library will not let go of yet is
-- left retiring, and the sweep of the progress thread (uet_vfio/uet_dev_data.c) finishes it.
-- Commands and sweeps hold one lock, so the model takes them one at a time, in any order.
--
-- Files:
-- - Base: the native numbers, lists, bits of words, and the array-filling loops of C.
-- - Bitmap: util/bitmap.c, function by function under the names of the source. A `void *` is an
--   `Option`, an index that the code tests against 0 is an integer, and an access outside an array
--   in a shift is `none`. Bitmap/Bits reads a bitmap as bits and pointers and says what keeps its
--   representation sound; Bitmap/Update, ShiftLaws, Search and Extract are about the operations.
-- - Pds/Psn: the PSN macros of uet_pds.c, uet_pds_decode_mpr and uet_pds_rand_start_psn.
-- - Pds/State: the fields of `struct uet_pdc` and `struct uet_pdc_pkt` that the windows use. A
--   packet pointer is a number that points into a memory of packets; frees, removals from the
--   transmit list and SES upcalls are events, the latest first.
-- - Pds/Rx: uet_pds_update_cack, uet_pds_shift_rx_window, uet_pds_check_duplicate_and_rtx, the
--   entry of a packet into the window in uet_pds_process_request, uet_pds_should_sack and
--   uet_pds_update_sack_base. Pds/Rx/Window says what a sound window is.
-- - Pds/Tx: uet_pds_tx_psn_allowed, uet_pds_process_mpr, uet_pds_process_sack_bitmap,
--   uet_pds_process_cack and uet_pds_shift_tx_window; Pds/Tx/Sack: what the SACK bitmap does to
--   the packets in flight.
-- - Pds/Free: uet_pdsm_free_pdc_pkts and uet_pdsm_free_pdc.
-- - Pds/Ack: uet_pds_process_ack, which puts these together. The answers of the SES, whether the
--   encryption is on and the start PSN of its method, and the packet's fields are arguments, and
--   the sends at its end are flags of its result. Pds/Ack/Sender says what a sound sender is,
--   Taken, Named and Processed are about its three parts, Outcome and Whole about all of it, and
--   Close about a control packet that is covered but not named.
-- - Pds/Deliver: uet_pds_upcall_ses_rx_req and uet_pds_process_data_pkt. What SES answers for each
--   PSN is an argument. Its children are about one upcall (Upcall), the loop of ROD (Order, Rod,
--   InOrder) and a packet that SES refuses (Loss).
-- - Pds/Close: uet_pds_send_ctrl_pkt, uet_pdsm_drain_tx_pkts, the two closes, and
--   uet_pds_close_pdc_in_error, with the transmit list beside the PDC. What allocation and
--   uet_pds_sec_tx_pkt answer is an argument. Its Drain and InError are about a close in error.
-- - Pds/Nack: uet_pds_process_nack, with uet_pds_nack_action, uet_pds_rtx_pkt and
--   uet_pds_reestablish_start_psn. Restart is about another start PSN, Outcome, Packet and
--   Whole about the NACKs that ask for a packet.
-- - Sec/Rotation: the key rotation of uet_sec_sd.c, and the order in which uet_sec.c takes AN,
--   counter and key. The wall clock's reading is an argument of each function. Sec/Rotation/Cache
--   is about the cached keys, Skew about peers with different clocks, Nonce about a packet on a
--   boundary.
-- - Cc/Path: the path states of cc/uet_cc_st.c, two bits for each path, and update_path;
--   Cc/Entropy: select_entropy.
-- - Dev/State: `struct uet_dev` of uet_vfio/uet_dev_priv.h and the objects in its tables, with the
--   used flag, the one-based handles and the zeroed slots of the source; Dev/Slots: the loops over
--   a table.
-- - Dev/Jobs, Dev/Addrs, Dev/Cqs, Dev/Qps and Dev/Mrs: the functions of uet_vfio/uet_dev_objs.c
--   and the two address commands of uet_vfio/uet_dev_admin.c; Dev/Retire: uet_dev_retire_poll.
--   A pointer to a slot is its index. Whatever the library, `calloc` and the guest's memory answer
--   is an argument. Their Invariant modules say what a valid table is, Kept, Keys, Refs, Bound and
--   Ops that every operation keeps it valid, and Contract and Modify what the operations promise.
-- - Dev/Steps: a step of the device, one constructor for each command or sweep, and what it
--   reaches; its Frames say what each operation leaves alone.
-- - Dev/Ring: the ring of a completion queue, with uet_dev_cq_post of uet_vfio/uet_dev_data.c, the
--   completion doorbell of uet_vfio/uet_dev_regs.c, and uet_ref_cq_peek, uet_ref_cq_advance and
--   the loop of uet_ref_poll_cq of uet_vfio/provider/uet_ref.c; Laps: slots and phases; Fifo and
--   Poll: what the guest finds. Indices are words that wrap. The device model keeps only whether a
--   ring is there, so the ring stands alone.
-- - Dev/Tests, Dev/Ring/Tests, Bitmap/Tests, Pds/Tests, Pds/Ack/Tests, Pds/Deliver/Tests,
--   Pds/Nack/Tests, Sec/Tests and Cc/Tests: runs at concrete inputs, and instances of the
--   theorems.
--
-- A read through a null packet pointer is `none`, and so are an upcall of SES with a NULL handle,
-- through which uet_api.c reads at once, a read of the job keys beyond their table and a loop that is
-- out of fuel. Three loops run on fuel. The `while (true)` of
-- uet_pds_shift_tx_window has one more round than the bitmap has bits: each round but the last
-- shifts a bit out. The walks of uet_pdsm_free_pdc_pkts have one more round than the bitmap has
-- bits too: each goes on behind the bit that the last one found. That of select_entropy has a
-- number of rounds as its argument, and says `running` where they do not suffice. The other loops
-- count up to a bound that the code computes beforehand, and recur on the rounds that are left.
--
-- Not modelled: printing and logging; allocation, but for its failure in bm_create; the contents
-- of packets and headers; ciphers and key derivation. Of the PDC its set-up, its timers, the
-- receipt of control packets and the sending of requests; RUDI and UUD, the SES, the window
-- control in floating point, the VPP plugin, and of the device its registers, other doorbells,
-- work requests, the draining of completions (uet_vfio/uet_dev_data.c), the filling of work
-- completions, the queries of the admin queue, the translation of addresses and the arguments of
-- uet_mr_reg_pbl, and the bundled third-party code are not modelled either.
pub mod Base
pub mod Bitmap
pub mod Cc
pub mod Dev
pub mod Pds
pub mod Sec
