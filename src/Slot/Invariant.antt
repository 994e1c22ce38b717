-- ===== src/Slot/Invariant.antt =====
-- What holds in every reachable state of the slots.
use Prim.Native.Nat.{min}
use scot.Base.{ℕ, ◌+◌, ◌^◌, ◌≡◌, ◌≤◌, ◌<◌, refl, arith}
use scot.Slot.{
  Counters, Pc, Move, take, full, retry, finish, store_ready, store_ready_last, all_processed,
  store_next_free, store_processed, update,
}
use scot.Slot.Count.{
  count, count-update, weight-le-count, count-le, is_waiting, is_working, is_marked, is_resetting,
  is_clearing, holds_last, slot_of, slot_of-idle,
}

-- The books: how the counters relate to the numbers of threads at each place.
pub record Books (c : Counters) (waits works marks resets clears lasts : ℕ) : Type 0 where
  -- threads that found the array full have raised the counter past its end, and are waiting
  pub room : c.next_free ≤ 512 + waits
  -- at most one thread has the last slot, and it has been given out
  pub one_last : lasts + marks + resets ≤ 1
  pub last_taken : 1 ≤ lasts + marks + resets → 512 ≤ c.next_free
  pub open_books : clears ≡ 0 → c.processed + works ≤ min c.next_free 512
  pub one_clears : clears ≤ 1
  pub carried :
      clears ≡ 1
      → (512 ≤ c.processed) × (c.processed + works ≤ 512 + min c.next_free 512) × (resets ≡ 0)
  pub late_mark : clears ≡ 1 → 1 ≤ marks → 513 ≤ c.processed
  pub reset_full : 1 ≤ resets → (c.processed ≡ 512) × (clears ≡ 0)

abbrev pub BooksOf : ℕ → Counters → (ℕ → Pc) → Type 0
BooksOf n c pc =
    Books c (count is_waiting n pc) (count is_working n pc) (count is_marked n pc)
      (count is_resetting n pc) (count is_clearing n pc) (count holds_last n pc)

pub record Inv (n : ℕ) (c : Counters) (pc : ℕ → Pc) : Type 0 where
  pub few : n ≤ 2 ^ 31
  pub balance : BooksOf n c pc
  pub taken : (a : ℕ) → a < n → slot_of (pc a) ≤ min c.next_free 512
  pub unique :
      (a b : ℕ) → a < n → b < n → 1 ≤ slot_of (pc a) → slot_of (pc a) ≡ slot_of (pc b) → a ≡ b

module _ {n : ℕ} {c : Counters} {pc : ℕ → Pc} (inv : Inv n c pc) (i : ℕ) (lt : i < n) where
  -- What one move does to the counts.
  pub record Counts (p p' : Pc) : Type 0 where
    pub here_is : pc i ≡ p
    pub waits :
        count is_waiting n (update pc i p') + is_waiting p ≡ count is_waiting n pc + is_waiting p'
    pub works :
        count is_working n (update pc i p') + is_working p ≡ count is_working n pc + is_working p'
    pub marks :
        count is_marked n (update pc i p') + is_marked p ≡ count is_marked n pc + is_marked p'
    pub resets :
        count is_resetting n (update pc i p') + is_resetting p
        ≡ count is_resetting n pc + is_resetting p'
    pub clears :
        count is_clearing n (update pc i p') + is_clearing p
        ≡ count is_clearing n pc + is_clearing p'
    pub lasts :
        count holds_last n (update pc i p') + holds_last p ≡ count holds_last n pc + holds_last p'
    pub few_wait : count is_waiting n pc ≤ n

  pub counts : (p' : Pc) → Counts (pc i) p'
  counts p' = record {
    here_is = refl;
    waits = count-update is_waiting n pc i p' lt;
    works = count-update is_working n pc i p' lt;
    marks = count-update is_marked n pc i p' lt;
    resets = count-update is_resetting n pc i p' lt;
    clears = count-update is_clearing n pc i p' lt;
    lasts = count-update holds_last n pc i p' lt;
    few_wait = count-le is_waiting (λ p. ground arith) n pc;
  }

  Move-BooksOf :
      {p p' : Pc} {c' : Counters} → Move c p c' p' → Counts p p' → BooksOf n c' (update pc i p')
  Move-BooksOf (take h) k =
      let b = inv.balance in
      record {
        room = ground arith;
        one_last = ground arith;
        last_taken = λ e. ground arith;
        open_books = λ e. ground arith;
        one_clears = ground arith;
        carried = λ e. ground arith;
        late_mark = λ e e2. ground arith;
        reset_full = λ e. ground arith;
      }
  Move-BooksOf (full h) k =
      let b = inv.balance in
      record {
        room = ground arith;
        one_last = ground arith;
        last_taken = λ e. ground arith;
        open_books = λ e. ground arith;
        one_clears = ground arith;
        carried = λ e. ground arith;
        late_mark = λ e e2. ground arith;
        reset_full = λ e. ground arith;
      }
  Move-BooksOf (retry h) k =
      let b = inv.balance in
      record {
        room = ground arith;
        one_last = ground arith;
        last_taken = λ e. ground arith;
        open_books = λ e. ground arith;
        one_clears = ground arith;
        carried = λ e. ground arith;
        late_mark = λ e e2. ground arith;
        reset_full = λ e. ground arith;
      }
  Move-BooksOf finish k =
      let b = inv.balance in
      record {
        room = ground arith;
        one_last = ground arith;
        last_taken = λ e. ground arith;
        open_books = λ e. ground arith;
        one_clears = ground arith;
        carried = λ e. ground arith;
        late_mark = λ e e2. ground arith;
        reset_full = λ e. ground arith;
      }
  Move-BooksOf (store_ready h) k =
      let b = inv.balance in
      record {
        room = ground arith;
        one_last = ground arith;
        last_taken = λ e. ground arith;
        open_books = λ e. ground arith;
        one_clears = ground arith;
        carried = λ e. ground arith;
        late_mark = λ e e2. ground arith;
        reset_full = λ e. ground arith;
      }
  Move-BooksOf (store_ready_last h) k =
      let b = inv.balance in
      record {
        room = ground arith;
        one_last = ground arith;
        last_taken = λ e. ground arith;
        open_books = λ e. ground arith;
        one_clears = ground arith;
        carried = λ e. ground arith;
        late_mark = λ e e2. ground arith;
        reset_full = λ e. ground arith;
      }
  Move-BooksOf (all_processed h) k =
      let b = inv.balance in
      record {
        room = ground arith;
        one_last = ground arith;
        last_taken = λ e. ground arith;
        open_books = λ e. ground arith;
        one_clears = ground arith;
        carried = λ e. ground arith;
        late_mark = λ e e2. ground arith;
        reset_full = λ e. ground arith;
      }
  Move-BooksOf store_next_free k =
      let b = inv.balance in
      record {
        room = ground arith;
        one_last = ground arith;
        last_taken = λ e. ground arith;
        open_books = λ e. ground arith;
        one_clears = ground arith;
        carried = λ e. ground arith;
        late_mark = λ e e2. ground arith;
        reset_full = λ e. ground arith;
      }
  Move-BooksOf store_processed k =
      let b = inv.balance in
      record {
        room = ground arith;
        one_last = ground arith;
        last_taken = λ e. ground arith;
        open_books = λ e. ground arith;
        one_clears = ground arith;
        carried = λ e. ground arith;
        late_mark = λ e e2. ground arith;
        reset_full = λ e. ground arith;
      }

  -- While one thread is about to reset, no thread works on a slot.
  pub none_works : 1 ≤ is_resetting (pc i) → (a : ℕ) → a < n → slot_of (pc a) ≡ 0
  none_works r a la =
      let b = inv.balance in
      slot_of-idle (pc a) (
        ground
          (arith, weight-le-count is_resetting n pc i lt, weight-le-count is_working n pc a la))

  Move-taken :
      {p p' : Pc} {c' : Counters}
      → Move c p c' p'
      → Counts p p'
      → (a : ℕ) → a < n
      → slot_of (update pc i p' a) ≤ min c'.next_free 512
  Move-taken (take h) k a la = ground (arith, inv.taken a la)
  Move-taken (full h) k a la =
      let b = inv.balance in let f = inv.few in ground (arith, inv.taken a la)
  Move-taken (retry h) k a la = ground (arith, inv.taken a la)
  Move-taken finish k a la = ground (arith, inv.taken a la)
  Move-taken (store_ready h) k a la = ground (arith, inv.taken a la)
  Move-taken (store_ready_last h) k a la = ground (arith, inv.taken a la)
  Move-taken (all_processed h) k a la = ground (arith, inv.taken a la)
  Move-taken store_next_free k a la = ground (arith, none_works (rw k.here_is (omega arith)) a la)
  Move-taken store_processed k a la = ground (arith, inv.taken a la)

  Move-unique :
      {p p' : Pc} {c' : Counters}
      → Move c p c' p'
      → Counts p p'
      → (a b : ℕ) → a < n
      → b < n
      → 1 ≤ slot_of (update pc i p' a)
      → slot_of (update pc i p' a) ≡ slot_of (update pc i p' b)
      → a ≡ b
  Move-unique (take h) k a b la lb o e =
      ground (arith, inv.taken a la, inv.taken b lb, inv.unique a b la lb)
  Move-unique (full h) k a b la lb o e = ground (arith, inv.unique a b la lb)
  Move-unique (retry h) k a b la lb o e = ground (arith, inv.unique a b la lb)
  Move-unique finish k a b la lb o e = ground (arith, inv.unique a b la lb)
  Move-unique (store_ready h) k a b la lb o e = ground (arith, inv.unique a b la lb)
  Move-unique (store_ready_last h) k a b la lb o e = ground (arith, inv.unique a b la lb)
  Move-unique (all_processed h) k a b la lb o e = ground (arith, inv.unique a b la lb)
  Move-unique store_next_free k a b la lb o e = ground (arith, inv.unique a b la lb)
  Move-unique store_processed k a b la lb o e = ground (arith, inv.unique a b la lb)

  pub Move-Inv : {p : Pc} {c' : Counters} → Move c (pc i) c' p → Inv n c' (update pc i p)
  Move-Inv {p} m = record {
    few = inv.few;
    balance = Move-BooksOf m (counts p);
    taken = Move-taken m (counts p);
    unique = Move-unique m (counts p);
  }
