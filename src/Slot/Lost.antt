-- ===== src/Slot/Lost.antt =====
-- src/scot-slot.cc, `mark_entry_finished`: what becomes of an entry that is marked finished between
-- the two stores of a reset. The second store wipes its count out.
use Prim.Native.Nat.{min}
use scot.Base.{ℕ, ◌+◌, ◌^◌, ◌≡◌, ◌≢◌, ◌≤◌, ◌<◌, ◌⊎◌, ap, subst, arith}
use scot.Slot.{
  Counters, Pc, working, resetting, clearing, Move, take, full, retry, finish, store_ready,
  store_ready_last, all_processed, store_next_free, store_processed, update, step, System, start,
  Reach, here, later,
}
use scot.Slot.Count.{count, weight-le-count, is_working, is_resetting, is_clearing}
use scot.Slot.Invariant.{Inv, Move-Inv, Counts, counts}
use scot.Slot.Safety.{Reach-Inv}

-- A count will be lost when `processed` is stored, or is lost: with all the threads at work done,
-- `processed` stays below what has been given out.
Lost : ℕ → Counters → (ℕ → Pc) → Type 0
Lost n c pc =
    ((count is_clearing n pc ≡ 1) × (513 ≤ c.processed))
    ⊎ ((count is_clearing n pc ≡ 0)
        × (count is_resetting n pc ≡ 0)
        × (c.processed + count is_working n pc < min c.next_free 512))

module _ {n : ℕ} {c : Counters} {pc : ℕ → Pc} (inv : Inv n c pc) (i : ℕ) (lt : i < n) where
  Move-Lost :
      {p p' : Pc} {c' : Counters}
      → Move c p c' p'
      → Counts inv i lt p p'
      → Lost n c pc
      → Lost n c' (update pc i p')
  unfolding Lost
  Move-Lost (take h) k l = let b = inv.balance in ground arith
  Move-Lost (full h) k l = let b = inv.balance in let f = inv.few in ground arith
  Move-Lost (retry h) k l = let b = inv.balance in ground arith
  Move-Lost finish k l = let b = inv.balance in ground arith
  Move-Lost (store_ready h) k l = let b = inv.balance in ground arith
  Move-Lost (store_ready_last h) k l = let b = inv.balance in ground arith
  Move-Lost (all_processed h) k l = let b = inv.balance in ground arith
  Move-Lost store_next_free k l = let b = inv.balance in ground arith
  Move-Lost store_processed k l = let b = inv.balance in ground arith

-- No thread is about to reset.
Lost-resets :
    {n : ℕ} {c : Counters} {pc : ℕ → Pc} → Inv n c pc → Lost n c pc → count is_resetting n pc ≡ 0
unfolding Lost
Lost-resets inv l = let b = inv.balance in ground arith

Reach-Lost :
    {n : ℕ} {s t : System}
    → Inv n s.counters s.pc
    → Lost n s.counters s.pc
    → Reach n s t
    → Inv n t.counters t.pc × Lost n t.counters t.pc
Reach-Lost inv l here = (inv, l)
Reach-Lost inv l (later r (step i lt m)) =
    let both = Reach-Lost inv l r in
    (Move-Inv both.0 i lt m, Move-Lost both.0 i lt m (counts both.0 i lt _) both.1)

-- `finish` while another thread stands between the two stores of a reset.
finish-Lost :
    {n : ℕ} {c c' : Counters} {pc : ℕ → Pc} {index : ℕ} {p : Pc} (inv : Inv n c pc) (a b : ℕ)
    (la : a < n) (lb : b < n)
    → is_clearing (pc a) ≡ 1
    → Move c (working index) c' p
    → Counts inv b lb (working index) p
    → Lost n c' (update pc b p)
unfolding Lost
finish-Lost {n} {pc} inv a b la lb ea finish k =
    let bk = inv.balance in ground (arith, weight-le-count is_clearing n pc a la)

-- A reset can lose a finished slot for good. In any state that at most 2 ^ 31 threads reach from the
-- constructor's state, let one thread `a` stand between `next_free.store(0)` and `processed.store(0)`
-- while another, `b`, marks its slot finished. Then in every later state, under every interleaving, no
-- thread is past `__wait_until_proc_finish`: the slots are never reset again.
pub lost-finish :
    {n : ℕ} {s t : System}
    → n ≤ 2 ^ 31
    → Reach n start s
    → (a b index : ℕ) (la : a < n) (lb : b < n) → s.pc a ≡ clearing
    → s.pc b ≡ working index
    → (c : Counters) (p : Pc) → Move s.counters (working index) c p
    → Reach n (record { counters = c; pc = update s.pc b p }) t
    → (d : ℕ) → d < n
    → t.pc d ≢ resetting
lost-finish few r a b index la lb ea eb c p m later_on d ld ed =
    let inv = Reach-Inv few r in
    let k = subst (λ q. Counts inv b lb q p) eb (counts inv b lb p) in
    let both =
      Reach-Lost (Move-Inv inv b lb (rw eb m)) (finish-Lost inv a b la lb (ap is_clearing ea) m k)
        later_on in
    omega
      (arith, Lost-resets both.0 both.1, weight-le-count is_resetting _ _ d ld, ap is_resetting ed)
