-- ===== src/Writer/Sequence.antt =====
-- `ScotReplicator::write_request` for one request after another, through any number of resets.
use scot.Base.{
  ℕ, suc, ◌+◌, ◌%◌, ◌≡◌, ◌≢◌, ◌<◌, ◌≤◌, refl, sym, ap, ◌∙◌, fun_ext, u32, false, Option, some, List,
  [], ◌∷◌, ◌++◌, ◌==◌, map, length, arith, Bool-cases, ==_iff, ne_of, ◌>>=◌, inl, inr,
}
use scot.Entry.{SlotEntry, SlotEntryArgs}
use scot.Memory.{Mem}
use scot.Lfmap.{LockfreeMap}
use scot.Lfmap.Chain.{Cell}
use scot.Lfmap.Find.{hash_table}
use scot.Log.{Log, write_local_log}
use scot.Slot.Entries.{get_slot_entry}
use scot.Replicator.Table.{among, IsTable, head_of}
use scot.Replicator.Add.{IsUnused}
use scot.Writer.{Writer, ConnContext, Post}
use scot.Writer.Replicate.{write_request}
use scot.Writer.Replicated.{whole_post, logged, post_same, write_request-logs}
use scot.Writer.Last.{write_request-resets}
use scot.Writer.Threads.Serial.{written, message_posts, sent_posts}

-- The requests of one thread, in order, with all posts.
unfoldable pub write_requests :
    (slot : ℕ)
    → LockfreeMap
    → (fuel : ℕ) → List ConnContext
    → Writer
    → List SlotEntryArgs
    → Option (Writer × List Post)
write_requests slot hasht fuel quorum w [] = some (w, [])
write_requests slot hasht fuel quorum w (sa ∷ sas) = do
  (v, posts) ← write_request slot hasht fuel quorum w sa
  (x, more) ← write_requests slot hasht fuel quorum v sas
  some (x, posts ++ more)

-- A request as the log reads it.
abbrev pub entry_of : SlotEntryArgs → SlotEntry
entry_of sa = record {
  next = 0;
  hashv = sa.hashv;
  ready = 1;
  blocked = 1;
  buffer = sa.buffer;
  buffer_sz = sa.buffer_sz;
  key = sa.key;
  key_sz = sa.key_sz;
  msg = sa.msg;
}

-- The slots lie apart from the table, aligned like it.
pub record IsLaidOut (nelem bucket slot : ℕ) : Type 0 where
  pub some_lists : 0 < nelem
  pub bucket_aligned : bucket % 4 ≡ 0
  pub slot_aligned : slot % 4 ≡ 0
  pub apart : (i j : ℕ) → i < 512 → j < nelem → get_slot_entry slot i ≢ head_of nelem bucket j

-- Between two requests: the slots before `next_free` are registered and marked, and no others.
pub record IsIdle (nelem bucket slot : ℕ) (w : Writer) : Type 0 where
  pub room : w.counters.next_free < 512
  pub balance : w.counters.processed ≡ w.counters.next_free
  pub cells : ℕ → List Cell
  pub reg : List ℕ
  pub table : IsTable nelem bucket w.heap cells reg
  pub size : length reg ≡ w.counters.next_free
  pub unused : (i : ℕ) → w.counters.next_free ≤ i → among (get_slot_entry slot i) reg ≡ false

module _ (nelem bucket slot : ℕ) (laid : IsLaidOut nelem bucket slot) where
  next-IsUnused :
      (w : Writer) (idle : IsIdle nelem bucket slot w)
      → IsUnused nelem bucket idle.reg (get_slot_entry slot w.counters.next_free)
  next-IsUnused w idle = record {
    aligned = let a = laid.slot_aligned in omega arith;
    unused = idle.unused w.counters.next_free (omega arith);
    apart = λ j lt. laid.apart w.counters.next_free j idle.room lt;
  }

  -- What one request does.
  abbrev pub Writes : (fuel : ℕ) → List ConnContext → Writer → SlotEntryArgs → Type 0
  Writes fuel quorum w sa =
      (v : Writer) × (write_request slot (hash_table nelem bucket) fuel quorum w sa
        ≡ some (v, message_posts quorum w.log w.mem (entry_of sa)))
      × ((v.log, v.mem) ≡ written w.log w.mem (entry_of sa ∷ []))
      × IsIdle nelem bucket slot v

  module _ (w : Writer) (sa : SlotEntryArgs) (idle : IsIdle nelem bucket slot w) where
    abbrev mem_after : Mem
    mem_after = logged nelem bucket slot idle.cells idle.reg w sa idle.table (next-IsUnused w idle)

    posts_same :
        (quorum : List ConnContext)
        → map
            (whole_post nelem bucket slot idle.cells idle.reg w sa idle.table
              (next-IsUnused w idle)
              mem_after)
            quorum
          ≡ message_posts quorum w.log w.mem (entry_of sa)
    posts_same quorum =
        ap (λ (f : ConnContext → Post). map f quorum)
          (fun_ext (λ ctx. sym (
            post_same nelem bucket slot idle.cells idle.reg w sa idle.table (next-IsUnused w idle)
              mem_after (entry_of sa) refl ctx)))

    -- A request that does not get the last slot.
    write_request-Writes_more :
        (fuel : ℕ) (quorum : List ConnContext)
        → 512 ≤ fuel
        → w.counters.next_free ≢ 511
        → Writes (suc fuel) quorum w sa
    write_request-Writes_more fuel quorum enough ne =
        let room = idle.room in
        let size = idle.size in
        let balance = idle.balance in
        let curr = get_slot_entry slot w.counters.next_free in
        let (k, e, table) =
          write_request-logs nelem bucket slot idle.cells idle.reg w sa idle.table
            (next-IsUnused w idle) fuel quorum (omega arith) (omega arith) in
        let v : Writer = record {
          counters = record {
            next_free = w.counters.next_free + 1;
            processed = u32 (w.counters.processed + 1);
          };
          log = (write_local_log w.log w.mem (entry_of sa)).0;
          heap = k;
          mem = mem_after;
        } in
        (
          v,
          e ∙ ap (λ (ps : List Post). some (v, ps)) (posts_same quorum),
          refl,
          record {
            room = omega arith;
            balance = omega arith;
            cells = _;
            reg = curr ∷ idle.reg;
            table = table;
            size = omega arith;
            unused = λ i le.
                let le' : w.counters.next_free + 1 ≤ i = le in
                let out = idle.unused i (omega arith) in
                let apart : get_slot_entry slot i ≢ curr = λ q. omega arith in ground arith;
          },
        )

    -- The request that gets the last slot.
    write_request-Writes_last :
        (fuel : ℕ) (quorum : List ConnContext)
        → 512 ≤ fuel
        → w.counters.next_free ≡ 511
        → Writes (suc fuel) quorum w sa
    write_request-Writes_last fuel quorum enough last =
        let size = idle.size in
        let (k, e, table) =
          write_request-resets nelem bucket slot idle.cells idle.reg w sa idle.table
            (next-IsUnused w idle) last (idle.balance ∙ last) fuel quorum (omega arith)
            laid.bucket_aligned laid.apart in
        let v : Writer = record {
          counters = record { next_free = 0; processed = 0 };
          log = (write_local_log w.log w.mem (entry_of sa)).0;
          heap = k;
          mem = mem_after;
        } in
        (
          v,
          e ∙ ap (λ (ps : List Post). some (v, ps)) (posts_same quorum),
          refl,
          record {
            room = omega arith;
            balance = refl;
            cells = λ i. [];
            reg = [];
            table = table;
            size = refl;
            unused = λ i le. refl;
          },
        )

  pub write_request-Writes :
      (fuel : ℕ) (quorum : List ConnContext) (w : Writer) (sa : SlotEntryArgs)
      → 512 ≤ fuel
      → IsIdle nelem bucket slot w
      → Writes (suc fuel) quorum w sa
  write_request-Writes fuel quorum w sa enough idle =
      elim (Bool-cases (w.counters.next_free == 511)) [
        | inl t ↦ write_request-Writes_last w sa idle fuel quorum enough ((==_iff _ _).0 t)
        | inr f ↦ write_request-Writes_more w sa idle fuel quorum enough (ne_of _ _ f)
      ]

  -- Take a writer between two requests, with its slots apart from its table, and fuel for more rounds
  -- than there are slots. Any number of requests, one after another, return: the log and the bytes are
  -- what writing their messages one after another leaves, the posts are those of the messages in order,
  -- each to every peer once; and the writer is between two requests again, with the slots and the table
  -- reset each time that the last slot was marked.
  pub write_requests-written :
      (fuel : ℕ) (quorum : List ConnContext) (w : Writer) (sas : List SlotEntryArgs)
      → 512 ≤ fuel
      → IsIdle nelem bucket slot w
      → (v : Writer) × (write_requests slot (hash_table nelem bucket) (suc fuel) quorum w sas
          ≡ some (v, sent_posts quorum w.log w.mem (map entry_of sas)))
        × ((v.log, v.mem) ≡ written w.log w.mem (map entry_of sas))
        × IsIdle nelem bucket slot v
  unfolding write_requests
  write_requests-written fuel quorum w [] enough idle = (w, refl, refl, idle)
  write_requests-written fuel quorum w (sa ∷ sas) enough idle =
      let (v, e, state, idle') = write_request-Writes fuel quorum w sa enough idle in
      let (x, more, rest, idle'') = write_requests-written fuel quorum v sas enough idle' in
      (
        x,
        rw (e, more)
            (ap
              (λ (y : Log × Mem). some (
                x,
                message_posts quorum w.log w.mem (entry_of sa)
                    ++ sent_posts quorum y.0 y.1 (map entry_of sas),
              ))
              state),
        rest ∙ ap (λ (y : Log × Mem). written y.0 y.1 (map entry_of sas)) state,
        idle'',
      )
