-- ===== src/Core/Serving.antt =====
-- A node that serves one proposal after another, through any number of resets of its slots.
use scot.Base.{
  fun_ext, ℕ, suc, ◌+◌, ◌*◌, ◌≡◌, ◌<◌, ◌≤◌, refl, ap, ◌∙◌, u32, true, false, Option, none, some,
  List, [], ◌∷◌, ◌++◌, ◌==◌, if◌then◌else◌, map, length, length-append, ltb, arith, Bool-cases,
  ne_of, ◌>>=◌, inl, inr,
}
use scot.Entry.{SlotEntry, SlotEntryArgs, Heap, write, set_ready}
use scot.Memory.{Mem, store8}
use scot.Lfmap.Find.{hash_table}
use scot.Slot.{Counters}
use scot.Log.{
  Log, aligned_addr, write_local_log, write_header, scot_msgtype_hdronly, scot_msgtype_pure,
  scot_msgtype_wait,
}
use scot.Slot.Entries.{
  get_slot_entry, fill_entry, get_next_slot, register_entry, mark_entry_finished, reset_table,
  clear_slots,
}
use scot.Writer.{Writer, ConnContext, Post}
use scot.Writer.Replicate.{write_request}
use scot.Writer.Check.{Checker, chkr_posts, chkr_write_request}
use scot.Writer.Threads.Serial.{message_posts}
use scot.Writer.Sequence.{IsIdle, IsLaidOut, entry_of, write_request-Writes}
use scot.Core.{Core, rpli_writer, chkr_writer, after_rpli, after_chkr, Rule, judge, propose}

-- The proposals of one thread, in order, with all posts.
unfoldable pub propose_all : (fuel : ℕ) → Core → List SlotEntryArgs → Option (Core × List Post)
propose_all fuel c [] = some (c, [])
propose_all fuel c (sa ∷ sas) = do
  (d, posts) ← propose fuel c sa
  (e, more) ← propose_all fuel d sas
  some (e, posts ++ more)

length-chkr_posts :
    (l : Log) (header log_sz owner : ℕ) (ctxs : List ConnContext) (m : Mem)
    → length (chkr_posts l header log_sz owner m ctxs).0 ≡ length ctxs
unfolding chkr_posts
length-chkr_posts l header log_sz owner [] m = refl
length-chkr_posts l header log_sz owner (ctx ∷ ctxs) m =
    ap suc (length-chkr_posts l header log_sz owner ctxs _)

pub length-map :
    (f : ConnContext → Post) (ctxs : List ConnContext) → length (map f ctxs) ≡ length ctxs
length-map f [] = refl
length-map f (ctx ∷ ctxs) = ap suc (length-map f ctxs)

length-more :
    (ps qs : List Post) (n q : ℕ)
    → length ps ≡ q
    → length qs ≡ n * q
    → length (ps ++ qs) ≡ suc n * q
length-more ps qs n q e f =
    let g : suc n * q ≡ q + n * q = grind arith in omega (arith, length-append ps qs)

-- A checker between two requests.
abbrev pub IsQuiet : Checker → Type 0
IsQuiet k =
    (k.writer.counters.next_free < 512)
    × (k.writer.counters.processed ≡ k.writer.counters.next_free)

-- The type that a request of the checker has for a peer, and the one that the last peer leaves in the header.
abbrev type_for : (owner : ℕ) → ConnContext → ℕ
type_for owner ctx = if owner == ctx.nid then scot_msgtype_wait else scot_msgtype_hdronly

abbrev last_type : (owner : ℕ) → ConnContext → List ConnContext → ℕ
last_type owner ctx [] = type_for owner ctx
last_type owner ctx (next ∷ ctxs) = last_type owner next ctxs

abbrev pub noted : (owner header : ℕ) → Mem → List ConnContext → Mem
noted owner header m [] = m
noted owner header m (ctx ∷ ctxs) = store8 m (header + 7) (last_type owner ctx ctxs)

store8_twice : (m : Mem) (p v w : ℕ) → store8 (store8 m p v) p w ≡ store8 m p w
unfolding store8
store8_twice m p v w = fun_ext (λ a. ground arith)

chkr_posts-noted :
    (l : Log) (header log_sz owner : ℕ) (ctxs : List ConnContext) (m : Mem)
    → (chkr_posts l header log_sz owner m ctxs).1 ≡ noted owner header m ctxs
unfolding chkr_posts
chkr_posts-noted l header log_sz owner [] m = refl
chkr_posts-noted l header log_sz owner (ctx ∷ []) m = refl
chkr_posts-noted l header log_sz owner (ctx ∷ next ∷ ctxs) m =
    chkr_posts-noted l header log_sz owner (next ∷ ctxs) _ ∙ store8_twice m (header + 7) _ _

-- A proposal of another node, as the log reads it.
abbrev pub wait_entry : SlotEntryArgs → SlotEntry
wait_entry sa = entry_of (record sa { msg = scot_msgtype_wait })

-- The checker's log and the bytes after its message.
abbrev pub asked_once : (owner : ℕ) → List ConnContext → Log → Mem → SlotEntryArgs → Log × Mem
asked_once owner quorum l m sa = (
  (write_local_log l m (wait_entry sa)).0,
  noted owner (aligned_addr l.log l.next_free) (write_local_log l m (wait_entry sa)).1 quorum,
)

filled_size :
    (h : Heap) (p : ℕ) (sa : SlotEntryArgs)
    → (fill_entry h p (record sa { msg = scot_msgtype_wait }) p).buffer_sz ≡ sa.buffer_sz
unfolding fill_entry write
filled_size h p sa = ground arith

filled_same :
    (l : Log) (m : Mem) (h : Heap) (p : ℕ) (sa : SlotEntryArgs)
    → write_local_log l m (fill_entry h p (record sa { msg = scot_msgtype_wait }) p)
      ≡ write_local_log l m (wait_entry sa)
unfolding fill_entry write write_local_log write_header
filled_same l m h p sa = let e : (p == p) ≡ true = ground arith in rw e refl

-- The checker returns, with a post for each peer, also where it gets the last slot.
pub chkr_write_request-returns :
    (slot : ℕ) (quorum : List ConnContext) (k : Checker) (sa : SlotEntryArgs) (owner : ℕ)
    → IsQuiet k
    → (j : Checker) × (posts : List Post) × (chkr_write_request slot quorum k sa owner
        ≡ some (j, posts))
      × ((j.writer.log, j.writer.mem) ≡ asked_once owner quorum k.writer.log k.writer.mem sa)
      × (length posts ≡ length quorum)
      × IsQuiet j
unfolding chkr_write_request register_entry get_next_slot mark_entry_finished
chkr_write_request-returns slot quorum k sa owner (room, balance) =
    let w = k.writer in
    let curr = get_slot_entry slot w.counters.next_free in
    let header = aligned_addr w.log.log w.log.next_free in
    let h = fill_entry w.heap curr (record sa { msg = scot_msgtype_wait }) in
    let after = write_local_log w.log w.mem (wait_entry sa) in
    let same : write_local_log w.log w.mem (h curr) ≡ after =
      filled_same w.log w.mem w.heap curr sa in
    let there : after.2 ≡ header = unfold write_local_log in refl in
    let sz : (h curr).buffer_sz ≡ sa.buffer_sz = filled_size w.heap curr sa in
    let sent = chkr_posts after.0 after.2 (8 + sa.buffer_sz + 1) owner after.1 quorum in
    let count = length-chkr_posts after.0 after.2 (8 + sa.buffer_sz + 1) owner quorum after.1 in
    let state : (after.0, sent.1) ≡ asked_once owner quorum w.log w.mem sa =
      ap (λ (m : Mem). (after.0, m))
        (chkr_posts-noted after.0 after.2 (8 + sa.buffer_sz + 1) owner quorum after.1
          ∙ ap (λ (p : ℕ). noted owner p after.1 quorum) there) in
    let e : ltb w.counters.next_free 512 ≡ true = ground arith in
    let asked : Counters → Heap → Checker = λ c g. record {
      writer = record { counters = c; log = after.0; heap = g; mem = sent.1 };
      wait_hashv = 0;
      wait_lock = true;
    } in
    elim (Bool-cases (w.counters.next_free == 511)) [
      | inl t ↦
          let f : (u32 (w.counters.processed + 1) == 512) ≡ true = ground arith in
          (
            asked (record { next_free = 0; processed = 0 })
                (clear_slots 512 (reset_table none (set_ready h curr 0)) slot),
            sent.0,
            rw (e, t, f, same, sz) refl,
            state,
            count,
            (omega arith, refl),
          )
      | inr t ↦
          let ne = ne_of _ _ t in
          (
            asked
                (record {
                  next_free = u32 (w.counters.next_free + 1);
                  processed = u32 (w.counters.processed + 1);
                })
                (set_ready h curr 0),
            sent.0,
            rw (e, t, same, sz) refl,
            state,
            count,
            (omega arith, omega arith),
          )
    ]

-- A proposal of its own, as the log reads it.
abbrev pub pure_entry : SlotEntryArgs → SlotEntry
pure_entry sa = entry_of (record sa { msg = scot_msgtype_pure })

-- The two logs and the bytes after some proposals: each message is written behind those before it in the
-- log of the writer that its owner decides on, and a message of the checker has the type that the last
-- peer was sent.
abbrev pub served :
    Rule → (nid : ℕ) → List ConnContext → (rl cl : Log) → Mem → List SlotEntryArgs → Log × Log × Mem
served rule nid quorum rl cl m [] = (rl, cl, m)
served rule nid quorum rl cl m (sa ∷ sas) =
    let own = write_local_log rl m (pure_entry sa) in
    let asked = asked_once (rule sa.hashv) quorum cl m sa in
    let here = rule sa.hashv == nid in
    served rule nid quorum (if here then own.0 else rl) (if here then cl else asked.0)
      (if here then own.1 else asked.1) sas

-- A node with an active rule, and with both writers between two requests.
pub record IsServing (nelem bucket : ℕ) (rule : Rule) (c : Core) : Type 0 where
  pub active : c.uint_judge.active_rule ≡ some rule
  pub hasht : c.hasht ≡ hash_table nelem bucket
  pub laid : IsLaidOut nelem bucket c.rpli_slot
  pub idle : IsIdle nelem bucket c.rpli_slot (rpli_writer c)
  pub quiet : IsQuiet (chkr_writer c)

module _ (nelem bucket : ℕ) (rule : Rule) (fuel : ℕ) (enough : 512 ≤ fuel) where
  -- What some proposals lead to.
  abbrev pub Serves : Core → List SlotEntryArgs → Type 0
  Serves c sas =
      (d : Core) × (posts : List Post) × (propose_all (suc fuel) c sas ≡ some (d, posts))
      × ((d.rpli.log, d.chkr.writer.log, d.mem)
          ≡ served rule c.nid c.quorum c.rpli.log c.chkr.writer.log c.mem sas)
      × (length posts ≡ length sas * length c.quorum)
      × IsServing nelem bucket rule d

  pub IsServing-rpli :
      (c : Core) (v : Writer)
      → IsServing nelem bucket rule c
      → IsIdle nelem bucket c.rpli_slot v
      → IsServing nelem bucket rule (after_rpli c v)
  IsServing-rpli c v s idle = record {
    active = s.active;
    hasht = s.hasht;
    laid = s.laid;
    idle = record {
      room = idle.room;
      balance = idle.balance;
      cells = idle.cells;
      reg = idle.reg;
      table = idle.table;
      size = idle.size;
      unused = idle.unused;
    };
    quiet = s.quiet;
  }

  IsServing-chkr :
      (c : Core) (k : Checker)
      → IsServing nelem bucket rule c
      → IsQuiet k
      → IsServing nelem bucket rule (after_chkr c k)
  IsServing-chkr c k s quiet = record {
    active = s.active;
    hasht = s.hasht;
    laid = s.laid;
    idle = record {
      room = s.idle.room;
      balance = s.idle.balance;
      cells = s.idle.cells;
      reg = s.idle.reg;
      table = s.idle.table;
      size = s.idle.size;
      unused = s.idle.unused;
    };
    quiet = quiet;
  }

  pub propose_own :
      (c : Core) (sa : SlotEntryArgs) (w : Writer) (posts : List Post)
      → IsServing nelem bucket rule c
      → (rule sa.hashv == c.nid) ≡ true
      → write_request c.rpli_slot
          (hash_table nelem bucket)
          (suc fuel)
          c.quorum
          (rpli_writer c)
          (record sa { msg = scot_msgtype_pure })
        ≡ some (w, posts)
      → propose (suc fuel) c sa ≡ some (after_rpli c w, posts)
  unfolding propose judge
  propose_own c sa w posts s t e = rw (s.active, t, s.hasht, e) refl

  propose_other :
      (c : Core) (sa : SlotEntryArgs) (k : Checker) (posts : List Post)
      → IsServing nelem bucket rule c
      → (rule sa.hashv == c.nid) ≡ false
      → chkr_write_request c.chkr_slot c.quorum (chkr_writer c) sa (rule sa.hashv) ≡ some (k, posts)
      → propose (suc fuel) c sa ≡ some (after_chkr c k, posts)
  unfolding propose judge
  propose_other c sa k posts s t e = rw (s.active, t, e) refl

  pub propose_all-Serves :
      (c : Core) (sas : List SlotEntryArgs) → IsServing nelem bucket rule c → Serves c sas
  unfolding propose_all
  propose_all-Serves c [] s = (c, [], refl, refl, omega arith, s)
  propose_all-Serves c (sa ∷ sas) s = elim (Bool-cases (rule sa.hashv == c.nid)) [
    | inl t ↦
        let (v, e, state, idle) =
          write_request-Writes nelem bucket c.rpli_slot s.laid fuel c.quorum (rpli_writer c)
            (record sa { msg = scot_msgtype_pure }) enough s.idle in
        let posts = message_posts c.quorum c.rpli.log c.mem (pure_entry sa) in
        let (d, more, rest, logs, size, last) =
          propose_all-Serves (after_rpli c v) sas (IsServing-rpli c v s idle) in
        (
          d,
          posts ++ more,
          rw (propose_own c sa v posts s t e, rest) refl,
          rw t (
              logs
              ∙ ap (λ (y : Log × Mem). served rule c.nid c.quorum y.0 c.chkr.writer.log y.1 sas)
                  state),
          length-more posts more (length sas) (length c.quorum) (length-map _ c.quorum) size,
          last,
        )
    | inr t ↦
        let (j, posts, e, state, count, quiet) =
          chkr_write_request-returns c.chkr_slot c.quorum (chkr_writer c) sa (rule sa.hashv)
            s.quiet in
        let (d, more, rest, logs, size, last) =
          propose_all-Serves (after_chkr c j) sas (IsServing-chkr c j s quiet) in
        (
          d,
          posts ++ more,
          rw (propose_other c sa j posts s t e, rest) refl,
          rw t (
              logs
              ∙ ap (λ (y : Log × Mem). served rule c.nid c.quorum c.rpli.log y.0 y.1 sas) state),
          length-more posts more (length sas) (length c.quorum) count size,
          last,
        )
  ]
