-- ===== src/Slot/Safety.antt =====
-- src/scot-slot.cc: what the slots promise their callers under every interleaving.
use scot.Base.{ℕ, ◌^◌, ◌≡◌, ◌≢◌, ◌≤◌, ◌<◌, refl, ap, arith}
use scot.Slot.{
  Counters, Pc, idle, update, working, resetting, step, System, start, Reach, here, later,
}
use scot.Slot.Count.{
  count-start, count-update, weight-le-count, is_waiting, is_working, is_marked, is_resetting,
  is_clearing, holds_last, slot_of,
}
use scot.Slot.Invariant.{Inv, Move-Inv, none_works}

start-Inv : (n : ℕ) → n ≤ 2 ^ 31 → Inv n start.counters start.pc
start-Inv n few = record {
  few = few;
  balance =
      let waits = count-start is_waiting refl n in
      let works = count-start is_working refl n in
      let marks = count-start is_marked refl n in
      let resets = count-start is_resetting refl n in
      let clears = count-start is_clearing refl n in
      let lasts = count-start holds_last refl n in
      record {
        room = omega arith;
        one_last = omega arith;
        last_taken = λ e. omega arith;
        open_books = λ e. omega arith;
        one_clears = omega arith;
        carried = λ e. absurd (omega arith);
        late_mark = λ e e2. absurd (omega arith);
        reset_full = λ e. absurd (omega arith);
      };
  taken = λ a la. omega arith;
  unique = λ a b la lb o e. absurd (omega arith);
}

pub Reach-Inv : {n : ℕ} {s : System} → n ≤ 2 ^ 31 → Reach n start s → Inv n s.counters s.pc
Reach-Inv few here = start-Inv _ few
Reach-Inv few (later r (step i lt m)) = Move-Inv (Reach-Inv few r) i lt m

-- In every state that any interleaving of at most 2 ^ 31 threads reaches from the constructor's state, two
-- threads to which `register_entry` has returned the same index, and which have not yet counted it in
-- `processed`, are one thread; and the index is inside the array.
pub register_entry-exclusive :
    {n : ℕ} {s : System}
    → n ≤ 2 ^ 31
    → Reach n start s
    → (a b index : ℕ) → a < n
    → b < n
    → s.pc a ≡ working index
    → s.pc b ≡ working index
    → (a ≡ b) × (index < 512)
register_entry-exclusive few r a b index la lb ea eb =
    let inv = Reach-Inv few r in
    let ua = ap slot_of ea in
    let ub = ap slot_of eb in
    (inv.unique a b la lb (omega arith) (omega arith), omega (arith, inv.taken a la))

one_resets :
    {n : ℕ} {c : Counters} {pc : ℕ → Pc}
    → Inv n c pc
    → (a b : ℕ) → a < n
    → b < n
    → is_resetting (pc a) ≡ 1
    → is_resetting (pc b) ≡ 1
    → a ≡ b
one_resets {n} {c} {pc} inv a b la lb ra rb =
    let l = inv.balance.one_last in
    ground (
      arith,
      count-update is_resetting n pc a idle la,
      weight-le-count is_resetting n (update pc a idle) b lb,
    )

-- In every state that any interleaving of at most 2 ^ 31 threads reaches from the constructor's state, if one
-- thread is past `__wait_until_proc_finish` and has not yet stored 0 to `next_free`, then no thread is
-- between the `fetch_add` of `register_entry` and that of `mark_entry_finished`, and no other thread
-- is resetting. A thread behind the second `fetch_add`, which has still to store `ready`, is not excluded.
pub reset-exclusive :
    {n : ℕ} {s : System}
    → n ≤ 2 ^ 31
    → Reach n start s
    → (a b : ℕ) → a < n
    → b < n
    → s.pc a ≡ resetting
    → ((index : ℕ) → s.pc b ≢ working index) × (s.pc b ≡ resetting → a ≡ b)
reset-exclusive few r a b la lb ea =
    let inv = Reach-Inv few r in
    (
      λ index eb. omega (arith, none_works inv a la (rw ea (omega arith)) b lb, ap slot_of eb),
      λ eb. one_resets (Reach-Inv few r) a b la lb (ap is_resetting ea) (ap is_resetting eb),
    )
