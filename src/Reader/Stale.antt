-- ===== src/Reader/Stale.antt =====
-- What the receiver leaves behind of a message that was not meant for it.
use scot.Base.{ℕ, ◌+◌, ◌≡◌, refl, false, none, some, List, [], ◌∷◌, ◌==◌, ap, ◌∙◌, arith}
use Prim.Native.Nat.{bit_and}
use scot.Memory.{Mem, load16}
use scot.Log.{
  Log, aligned_addr, next_message, poll_next_local_log, poll_detected, poll_end, detect_loop,
  scot_msgtype_hdronly,
}
use scot.Reader.{receiver_round}

header_only :
    (l : Log) (m : Mem) (ms : List Mem)
    → m (aligned_addr l.log l.next_free + 7) ≡ scot_msgtype_hdronly
    → receiver_round l (m ∷ ms)
      ≡ some (none, next_message l (load16 m (aligned_addr l.log l.next_free + 4)), m)
unfolding receiver_round poll_next_local_log poll_detected poll_end detect_loop
header_only l m ms type =
    let wanted : (bit_and (m (aligned_addr l.log l.next_free + 7)) 12 == 0) ≡ false =
      rw type refl in
    rw (wanted, type) (rw type)

-- The receiver passes over a HDRONLY message without clearing its type. So wherever its log comes to
-- stand at that place again, with the memory as it left it, the next round takes the old header for a
-- new message: it returns at once, and goes on by the old size.
pub receiver_round-stale :
    (l l' : Log) (m : Mem) (ms : List Mem)
    → m (aligned_addr l.log l.next_free + 7) ≡ scot_msgtype_hdronly
    → l'.log ≡ l.log
    → l'.next_free ≡ l.next_free
    → (g : Mem) × (receiver_round l (m ∷ ms)
        ≡ some (none, next_message l (load16 m (aligned_addr l.log l.next_free + 4)), g))
      × (receiver_round l' (g ∷ [])
          ≡ some (none, next_message l' (load16 m (aligned_addr l.log l.next_free + 4)), g))
receiver_round-stale l l' m ms type base place =
    let at : aligned_addr l'.log l'.next_free ≡ aligned_addr l.log l.next_free = omega arith in
    let old : m (aligned_addr l'.log l'.next_free + 7) ≡ scot_msgtype_hdronly = rw at type in
    (
      m,
      header_only l m ms type,
      header_only l' m [] old
          ∙ ap (λ (a : ℕ). some (none, next_message l' (load16 m (a + 4)), m)) at,
    )
