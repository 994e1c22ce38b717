-- ===== src/Writer/Replicated.antt =====
-- `ScotReplicator::write_request` as a whole: slot, table, log and posts.
use scot.Base.{
  subst, ℕ, suc, ◌+◌, ◌-◌, ◌%◌, ◌^◌, ◌≡◌, ◌<◌, ◌≤◌, ◌⊎◌, refl, sym, ap, ◌∙◌, fun_ext, ltb, u32,
  true, false, Option, some, List, ◌∷◌, ◌==◌, map, length, absurd_both, arith,
}
use scot.Entry.{SlotEntry, SlotEntryArgs, Heap, set_ready}
use scot.Memory.{Mem}
use scot.Lfmap.Chain.{Cell}
use scot.Lfmap.Find.{hash_table}
use scot.Lfmap.Rewire.{OnlyNext-hash}
use scot.Log.{Log, write_header, aligned_addr, next_message, write_local_log}
use scot.Log.Write.{IsRequest, IsMessage, write_local_log-IsMessage}
use scot.Slot.Entries.{
  get_slot_entry, fill_entry, get_next_slot, register_entry, mark_entry_finished,
}
use scot.Replicator.{ht_try_insert, ht_get_latest_entry}
use scot.Replicator.Table.{among, IsTable}
use scot.Replicator.Add.{IsUnused, cells_after, ht_try_insert-IsTable, ht_get_latest_entry-IsTable}
use scot.Replicator.Frame.{IsTable-Same}
use scot.Slot.{Counters}
use scot.Lfmap.{LockfreeMap}
use scot.Writer.{Writer, ConnContext, Post}
use scot.Writer.Replicate.{write_request, rpli_post}
use scot.Writer.Filled.{
  fill_ne, IsFilled, fill_self, set_ready-Same, OnlyReady-Same, IsFilled-kept, self_found,
}

some_eq : {a c : ℕ} → some a ≡ some c → a ≡ c
some_eq e = cc

module _ (nelem bucket slot : ℕ) (cells : ℕ → List Cell) (reg : List ℕ) (w : Writer)
    (sa : SlotEntryArgs) (t : IsTable nelem bucket w.heap cells reg)
    (u : IsUnused nelem bucket reg (get_slot_entry slot w.counters.next_free)) where
  abbrev pub curr : ℕ
  curr = get_slot_entry slot w.counters.next_free

  abbrev pub filled : Heap
  filled = fill_entry w.heap curr sa

  filled-IsTable : IsTable nelem bucket filled cells reg
  filled-IsTable =
      IsTable-Same nelem bucket w.heap filled cells reg
        (λ a e.
          let k =
            fill_ne w.heap curr sa a
              (λ p. absurd_both (ap (λ (x : ℕ). among x reg) (sym p) ∙ e) u.unused) in
          (ap (λ (s : SlotEntry). s.next) k, ap (λ (s : SlotEntry). s.hashv) k))
        (λ i lt.
          ap (λ (s : SlotEntry). s.next) (fill_ne w.heap curr sa _ (λ e. u.apart i lt (sym e))))
        t

  filled_hash : (filled curr).hashv ≡ sa.hashv
  filled_hash = (fill_self w.heap curr sa).hashv

  -- What happens in the table: the entry is added, and it is the newest one for its hash value.
  pub table_part :
      (fuel : ℕ)
      → length reg < fuel
      → (g : Heap) × (k : Heap) × (ht_try_insert
            (hash_table nelem bucket)
            (suc fuel)
            (suc fuel)
            filled
            curr
          ≡ some g)
        × (ht_get_latest_entry (suc fuel) g curr ≡ some (curr, k))
        × IsTable nelem bucket k (cells_after (sa.hashv % nelem) sa.hashv curr cells) (curr ∷ reg)
        × IsFilled (k curr) sa
  table_part fuel enough =
      let (g, done, table, only) =
        ht_try_insert-IsTable nelem bucket filled cells reg curr filled-IsTable u fuel fuel
          (omega arith) in
      let table' : IsTable nelem bucket g (cells_after (sa.hashv % nelem) sa.hashv curr cells)
          (curr ∷ reg) =
        rw filled_hash at table in
      let (b, k, found, got, reach) =
        ht_get_latest_entry-IsTable nelem bucket g
          (cells_after (sa.hashv % nelem) sa.hashv curr cells) (curr ∷ reg) curr (suc fuel) table'
          (ground arith) (omega arith) in
      let hash : (g curr).hashv ≡ sa.hashv = OnlyNext-hash filled g only curr ∙ filled_hash in
      let b_is : b ≡ curr = some_eq (
        sym (rw hash at found)
        ∙ self_found nelem cells curr sa.hashv
            (t.lists _ (let pos = t.some_lists in omega arith)).sorted) in
      (
        g,
        k,
        done,
        rw b_is at got,
        IsTable-Same nelem bucket g k _ (curr ∷ reg) (λ a e. OnlyReady-Same g k reach.fields a)
            (λ i lt. (OnlyReady-Same g k reach.fields _).0) table',
        IsFilled-kept filled g k curr sa only reach.fields (fill_self w.heap curr sa),
      )

  abbrev header : ℕ
  header = aligned_addr w.log.log w.log.next_free

  -- The counters after a request that does not hold the last slot.
  abbrev counted : Counters
  counted = record {
    next_free = w.counters.next_free + 1;
    processed = u32 (w.counters.processed + 1);
  }

  abbrev pub given : Counters
  given = record w.counters { next_free = w.counters.next_free + 1 }

  pub register_part :
      w.counters.next_free < 512
      → register_entry slot w.counters w.heap sa ≡ some (w.counters.next_free, given, filled)
  unfolding register_entry get_next_slot
  register_part lt =
      let e : ltb w.counters.next_free 512 ≡ true = ground arith in
      let c : u32 (w.counters.next_free + 1) ≡ w.counters.next_free + 1 = omega arith in rw (e, c)

  finish_part :
      (ht : Option LockfreeMap) (k : Heap)
      → w.counters.next_free < 511
      → mark_entry_finished slot ht given k w.counters.next_free curr
        ≡ some (0, counted, set_ready k curr 0)
  unfolding mark_entry_finished
  finish_part ht k lt = let e : (w.counters.next_free == 511) ≡ false = ground arith in rw e

  -- The post for a peer: the whole message, to the same offset in the peer's region.
  abbrev pub whole_post : Mem → ConnContext → Post
  whole_post m ctx = record {
    nid = ctx.nid;
    header = header;
    target = ctx.rply_addr + (header - w.log.log);
    size = 8 + sa.buffer_sz + 1;
    local = m;
  }

  pub post_same :
      (m : Mem) (e : SlotEntry)
      → e.buffer_sz ≡ sa.buffer_sz
      → (ctx : ConnContext)
      → rpli_post
          (write_local_log w.log w.mem e).0
          (write_local_log w.log w.mem e).2
          (8 + e.buffer_sz + 1)
          m
          ctx
        ≡ whole_post m ctx
  unfolding rpli_post write_local_log next_message
  post_same m e size ctx = rw size

  steps :
      (fuel : ℕ) (quorum : List ConnContext) (g k : Heap)
      → w.counters.next_free < 511
      → (ht_try_insert (hash_table nelem bucket) (suc fuel) (suc fuel) filled curr ≡ some g)
      → (ht_get_latest_entry (suc fuel) g curr ≡ some (curr, k))
      → (k curr).buffer_sz ≡ sa.buffer_sz
      → write_request slot (hash_table nelem bucket) (suc fuel) quorum w sa
        ≡ some (
          record {
            counters = counted;
            log = (write_local_log w.log w.mem (k curr)).0;
            heap = set_ready k curr 0;
            mem = (write_local_log w.log w.mem (k curr)).1;
          },
          map (whole_post (write_local_log w.log w.mem (k curr)).1) quorum,
        )
  unfolding write_request
  steps fuel quorum g k lt done got size =
      rw (register_part (omega arith), done, got, finish_part (some (hash_table nelem bucket)) k lt)
        (let after = write_local_log w.log w.mem (k curr) in
          ap
            (λ (f : ConnContext → Post). some (
              record {
                counters = counted;
                log = after.0;
                heap = set_ready k curr 0;
                mem = after.1;
              },
              map f quorum,
            ))
            (fun_ext (post_same after.1 (k curr) size)))

  -- The request as the log reads it.
  abbrev pub request : SlotEntry
  request = record {
    next = 0;
    hashv = sa.hashv;
    ready = 1;
    blocked = 1;
    buffer = sa.buffer;
    buffer_sz = sa.buffer_sz;
    key = sa.key;
    key_sz = sa.key_sz;
    msg = sa.msg;
  }

  pub write_local_log_same :
      (m : Mem) (e : SlotEntry)
      → IsFilled e sa
      → write_local_log w.log m e ≡ write_local_log w.log m request
  unfolding write_local_log write_header
  write_local_log_same m e f = rw (f.hashv, f.buffer, f.buffer_sz, f.msg) refl

  -- The memory and the log after the message.
  abbrev pub logged : Mem
  logged = (write_local_log w.log w.mem request).1

  abbrev pub log_after : Log
  log_after = (write_local_log w.log w.mem request).0

  pub write_request-logs :
      (fuel : ℕ) (quorum : List ConnContext)
      → w.counters.next_free < 511
      → length reg < fuel
      → (k : Heap) × (write_request slot (hash_table nelem bucket) (suc fuel) quorum w sa
          ≡ some (
            record { counters = counted; log = log_after; heap = k; mem = logged },
            map (whole_post logged) quorum,
          ))
        × IsTable nelem bucket k (cells_after (sa.hashv % nelem) sa.hashv curr cells) (curr ∷ reg)
  write_request-logs fuel quorum few enough =
      let (g, k, done, got, table, f) = table_part fuel enough in
      (
        set_ready k curr 0,
        subst
            (λ (x : Log × Mem × ℕ).
              write_request slot (hash_table nelem bucket) (suc fuel) quorum w sa
              ≡ some (
                record { counters = counted; log = x.0; heap = set_ready k curr 0; mem = x.1 },
                map (whole_post x.1) quorum,
              ))
            (write_local_log_same w.mem (k curr) f)
            (steps fuel quorum g k few done got f.buffer_sz),
        IsTable-Same nelem bucket k (set_ready k curr 0) _ (curr ∷ reg)
            (λ a e. set_ready-Same k curr 0 a) (λ i lt. (set_ready-Same k curr 0 _).0) table,
      )

  module _ (few : w.counters.next_free < 511) (fits : IsRequest request)
      (inst : w.log.instn < 2 ^ 8)
      (apart : (sa.buffer + sa.buffer_sz ≤ header) ⊎ (header + 9 + sa.buffer_sz ≤ sa.buffer)) where
    -- Take a writer whose table holds its invariant, a request whose values fit their types and whose bytes
    -- do not overlap the place of the message, and fuel for more rounds than entries are registered. If
    -- the next slot is unused and not the last one, the request is replicated: `write_request` returns; the local log holds the message of the request, its own hash value, payload and type,
    -- at the writer's position; for each peer there is one post of the whole message to the same
    -- offset of that peer's replayer region, made while the message stands in the log; the table holds its
    -- invariant with the new entry as the newest one for its hash value; and both counters went up by one.
    pub write_request-replicates :
        (fuel : ℕ)
        → length reg < fuel
        → (quorum : List ConnContext)
        → (v : Writer) × (write_request slot (hash_table nelem bucket) (suc fuel) quorum w sa
            ≡ some (v, map (whole_post v.mem) quorum))
          × IsMessage v.mem header request w.log.instn w.mem
          × IsTable nelem bucket v.heap
              (cells_after (sa.hashv % nelem) sa.hashv curr cells)
              (curr ∷ reg)
          × (v.counters ≡ counted)
    write_request-replicates fuel enough quorum =
        let (k, done, table) = write_request-logs fuel quorum few enough in
        (
          record { counters = counted; log = log_after; heap = k; mem = logged },
          done,
          write_local_log-IsMessage w.log w.mem request fits inst apart,
          table,
          refl,
        )
