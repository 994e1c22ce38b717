-- ===== src/Core/Own.antt =====
-- A node that owns what is proposed to it: its posts, in order.
use scot.Base.{
  ℕ, suc, ◌+◌, ◌≡◌, ◌≤◌, refl, sym, ap, ◌∙◌, some, List, All, [], ◌∷◌, ◌++◌, ◌==◌, map, length,
  length-append, get_elem?, get_elem?-map, arith, true, zero,
}
use mathlib.Core.List.{append_assoc}
use scot.Entry.{SlotEntry, SlotEntryArgs}
use scot.Memory.{Mem}
use scot.Log.{Log, write_local_log, next_message, scot_msgtype_pure, sizeof_header}
use scot.Writer.{Writer, ConnContext, Post, remote_target}
use scot.Writer.Replicate.{rpli_post}
use scot.Writer.Threads.Serial.{message_posts, sent_posts}
use scot.Writer.Sequence.{write_request-Writes}
use scot.Reader.Stream.{same_place}
use scot.Reader.Succession.{place, Way}
use scot.Core.{Core, Rule, rpli_writer, after_rpli}
use scot.Core.Serving.{IsServing, propose_all, propose_own, IsServing-rpli, pure_entry, length-map}

module _ (nelem bucket : ℕ) (rule : Rule) (fuel : ℕ) (enough : 512 ≤ fuel) where
  -- Proposals of the node's own, one after another, return with their posts in order.
  pub propose_all-own :
      (c : Core) (sas : List SlotEntryArgs)
      → IsServing nelem bucket rule c
      → All (λ (sa : SlotEntryArgs). (rule sa.hashv == c.nid) ≡ true) sas
      → (w : Writer) × (propose_all (suc fuel) c sas
          ≡ some (after_rpli c w, sent_posts c.quorum c.rpli.log c.mem (map pure_entry sas)))
  unfolding propose_all
  propose_all-own c [] s own = (rpli_writer c, refl)
  propose_all-own c (sa ∷ sas) s (t, own) =
      let (v, e, state, idle) =
        write_request-Writes nelem bucket c.rpli_slot s.laid fuel c.quorum (rpli_writer c)
          (record sa { msg = scot_msgtype_pure }) enough s.idle in
      let posts = message_posts c.quorum c.rpli.log c.mem (pure_entry sa) in
      let (w, rest) =
        propose_all-own (after_rpli c v) sas
          (IsServing-rpli nelem bucket rule fuel enough c v s idle) own in
      (
        w,
        rw (propose_own nelem bucket rule fuel enough c sa v posts s t e, rest)
            (ap
              (λ (y : Log × Mem).
                some (after_rpli c w, posts ++ sent_posts c.quorum y.0 y.1 (map pure_entry sas)))
              state),
      )

-- Among the posts, from the one at `at` on, every `q`-th goes to node `b`: message by message, from its
-- place in the log of the writer to its place in the log of the reader.
abbrev pub Posted :
    (posts : List Post) (b at q : ℕ) (lw lr : Log) → Mem → List (SlotEntry × Way) → Type 0
Posted posts b at q lw lr m [] = Unit
Posted posts b at q lw lr m ((r, way) ∷ ms) =
    (get_elem? posts at
      ≡ some (record {
        nid = b;
        header = place lw;
        target = place lr;
        size = 9 + r.buffer_sz;
        local = (write_local_log lw m r).1;
      }))
    × Posted posts b (at + q) q (next_message lw r.buffer_sz) (next_message lr r.buffer_sz)
        (write_local_log lw m r).1 ms

get_elem?-skip :
    (xs ys : List Post) (i j : ℕ) → j ≡ length xs + i → get_elem? (xs ++ ys) j ≡ get_elem? ys i
get_elem?-skip [] ys i j e = ap (get_elem? ys) (omega arith)
get_elem?-skip (x ∷ xs) ys i zero e = absurd (omega arith)
get_elem?-skip (x ∷ xs) ys i (suc j) e = get_elem?-skip xs ys i j (omega arith)

get_elem?-first :
    (xs ys : List Post) (i : ℕ) (x : Post)
    → get_elem? xs i ≡ some x
    → get_elem? (xs ++ ys) i ≡ some x
get_elem?-first [] ys i x e = absurd (cc)
get_elem?-first (z ∷ xs) ys zero x e = e
get_elem?-first (z ∷ xs) ys (suc i) x e = get_elem?-first xs ys i x e

post_for :
    (quorum : List ConnContext) (at : ℕ) (ctx : ConnContext) (lw lr : Log) (m : Mem) (r : SlotEntry)
    → get_elem? quorum at ≡ some ctx
    → ctx.rply_addr ≡ lr.log
    → lr.next_free ≡ lw.next_free
    → get_elem? (message_posts quorum lw m r) at
      ≡ some (record {
        nid = ctx.nid;
        header = place lw;
        target = place lr;
        size = 9 + r.buffer_sz;
        local = (write_local_log lw m r).1;
      })
unfolding rpli_post write_local_log next_message
post_for quorum at ctx lw lr m r here region in_step =
    let target : remote_target ctx.rply_addr (next_message lw r.buffer_sz) (place lw) ≡ place lr =
      omega arith in
    let size : sizeof_header + r.buffer_sz + 1 ≡ 9 + r.buffer_sz = omega arith in
    get_elem?-map _ quorum at ctx here ∙ rw (target, size) refl

-- Each message has its post.
pub sent_posts-Posted :
    (quorum : List ConnContext) (at : ℕ) (ctx : ConnContext) (b : ℕ)
    → get_elem? quorum at ≡ some ctx
    → ctx.nid ≡ b
    → (lw lr : Log) (m : Mem) (ms : List (SlotEntry × Way)) → ctx.rply_addr ≡ lr.log
    → lr.next_free ≡ lw.next_free
    → (before posts : List Post) (from : ℕ)
    → posts ≡ before ++ sent_posts quorum lw m (map (λ (x : SlotEntry × Way). x.0) ms)
    → from ≡ length before + at
    → Posted posts b from (length quorum) lw lr m ms
unfolding write_local_log
sent_posts-Posted quorum at ctx b here named lw lr m [] region in_step before posts from e f = tt
sent_posts-Posted quorum at ctx b here named lw lr m ((r, way) ∷ ms) region in_step before posts
      from e f =
    let now = message_posts quorum lw m r in
    let more =
      sent_posts quorum (next_message lw r.buffer_sz) (write_local_log lw m r).1
        (map (λ (x : SlotEntry × Way). x.0) ms) in
    let base : (next_message lr r.buffer_sz).log ≡ lr.log = unfold next_message in refl in
    let first : get_elem? now at ≡ _ = post_for quorum at ctx lw lr m r here region in_step in
    let wide : length now ≡ length quorum = length-map _ quorum in
    (
      ap (λ (ps : List Post). get_elem? ps from) e
          ∙ get_elem?-skip before (now ++ more) at from f
          ∙ get_elem?-first now more at _ first
          ∙ rw named refl,
      sent_posts-Posted quorum at ctx b here named (next_message lw r.buffer_sz)
          (next_message lr r.buffer_sz) (write_local_log lw m r).1 ms (region ∙ sym base)
          (same_place lw lr r.buffer_sz in_step) (before ++ now) posts (from + length quorum)
          (e ∙ sym (append_assoc before now more)) (omega (arith, length-append before now)),
    )
