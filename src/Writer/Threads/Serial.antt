-- ===== src/Writer/Threads/Serial.antt =====
-- What the callers of `write_request` leave in the log and send is what they leave and send one after
-- another, in the order in which they get the writer lock.
use scot.Base.{
  ℕ, ◌+◌, ◌≡◌, ◌≢◌, inl, inr, refl, sym, ◌∙◌, true, false, List, [], ◌∷◌, ◌++◌, map, ◌==◌,
  Bool-cases, ==_iff, ne_of, subst, ap,
}
use mathlib.Core.List.{append-nil, append_assoc}
use scot.Entry.{SlotEntry, Heap}
use scot.Memory.{Mem}
use scot.Log.{Log, sizeof_header, write_local_log}
use scot.Writer.{ConnContext, Post}
use scot.Writer.Replicate.{rpli_post}
use scot.Writer.Threads.{
  Place, outside, locked, chosen, posting, Shared, Access, prepare, start_write, choose, write,
  post, end_write, Callers, put, Turns, none_yet, turn, unlocked,
}
use scot.Writer.Threads.Held.{outside-cases, put_self, put_ne, IsHeld, free-outside, Turns-IsHeld}

-- The log and the bytes after some messages, one after another.
abbrev pub written : Log → Mem → List SlotEntry → Log × Mem
written l m [] = (l, m)
written l m (r ∷ rs) = written (write_local_log l m r).0 (write_local_log l m r).1 rs

-- What is sent of a message, to each peer once.
abbrev pub message_posts : List ConnContext → Log → Mem → SlotEntry → List Post
message_posts quorum l m r =
    map
      (rpli_post (write_local_log l m r).0 (write_local_log l m r).2
        (sizeof_header + r.buffer_sz + 1) (write_local_log l m r).1)
      quorum

abbrev pub sent_posts : List ConnContext → Log → Mem → List SlotEntry → List Post
sent_posts quorum l m [] = []
sent_posts quorum l m (r ∷ rs) =
    message_posts quorum l m r
    ++ sent_posts quorum (write_local_log l m r).0 (write_local_log l m r).1 rs

written-snoc :
    (l : Log) (m : Mem) (rs : List SlotEntry) (r : SlotEntry)
    → written l m (rs ++ r ∷ []) ≡ (
      (write_local_log (written l m rs).0 (written l m rs).1 r).0,
      (write_local_log (written l m rs).0 (written l m rs).1 r).1,
    )
written-snoc l m [] r = refl
written-snoc l m (x ∷ rs) r = written-snoc (write_local_log l m x).0 (write_local_log l m x).1 rs r

sent_posts-snoc :
    (quorum : List ConnContext) (l : Log) (m : Mem) (rs : List SlotEntry) (r : SlotEntry)
    → sent_posts quorum l m (rs ++ r ∷ [])
      ≡ sent_posts quorum l m rs ++ message_posts quorum (written l m rs).0 (written l m rs).1 r
sent_posts-snoc quorum l m [] r = append-nil _
sent_posts-snoc quorum l m (x ∷ rs) r =
    ap (λ (ps : List Post). message_posts quorum l m x ++ ps)
      (sent_posts-snoc quorum (write_local_log l m x).0 (write_local_log l m x).1 rs r)
    ∙ sym (append_assoc (message_posts quorum l m x) _ _)

-- The posts that a caller has still to make.
abbrev pub left : Shared → Place → List Post
left s outside = []
left s (locked curr) = []
left s (chosen latest) = []
left s (posting header log_sz ctxs) = map (rpli_post s.log header log_sz s.mem) ctxs

-- The messages so far, with the posts that they led to.
pub record IsSerial (quorum : List ConnContext) (l : Log) (m : Mem) (s : Callers) : Type 0 where
  pub history : List SlotEntry
  pub state : written l m history ≡ (s.shared.log, s.shared.mem)
  pub full : ((a : ℕ) → s.place a ≡ outside) → s.shared.posts ≡ sent_posts quorum l m history
  pub part :
      (a : ℕ)
      → s.place a ≢ outside
      → s.shared.posts ++ left s.shared (s.place a) ≡ sent_posts quorum l m history

module _ (quorum : List ConnContext) (l : Log) (m : Mem) (s : Callers) (held : IsHeld s) (i : ℕ)
    (u : Shared) where
  others_outside : s.place i ≢ outside → (a : ℕ) → a ≢ i → s.place a ≡ outside
  others_outside inside a ne = elim (outside-cases (s.place a)) [
    | inl e ↦ e
    | inr ia ↦ absurd (ne (held.alone a i ia inside))
  ]

  module _ (q : Place) (history : List SlotEntry) (state : written l m history ≡ (u.log, u.mem))
      (others : (a : ℕ) → a ≢ i → s.place a ≡ outside)
      (posts : u.posts ++ left u q ≡ sent_posts quorum l m history) where
    abbrev after : Callers
    after = record { shared = u; place = put s.place i q }

    -- Caller `i` is the only one that can be inside.
    one-IsSerial : IsSerial quorum l m after
    one-IsSerial = record {
      history = history;
      state = state;
      full = λ out.
          let e : q ≡ outside = sym (put_self s.place i q) ∙ out i in
          sym (append-nil u.posts)
          ∙ subst (λ (x : Place). u.posts ++ left u x ≡ sent_posts quorum l m history) e posts;
      part = λ a inside. elim (Bool-cases (a == i)) [
        | inl t ↦
            let e : a ≡ i = (==_iff _ _).0 t in
            let e' = ap (put s.place i q) e ∙ put_self s.place i q in
            subst (λ (x : Place). u.posts ++ left u x ≡ sent_posts quorum l m history) (sym e')
              posts
        | inr f ↦ let ne = ne_of _ _ f in absurd (inside (put_ne s.place i q a ne ∙ others a ne))
      ];
    }

inside_of : (s : Callers) (i : ℕ) {p : Place} → s.place i ≡ p → p ≢ outside → s.place i ≢ outside
inside_of s i e ne z = ne (sym e ∙ z)

left_of :
    (quorum : List ConnContext) (l : Log) (m : Mem) (s : Callers) (serial : IsSerial quorum l m s)
    (i : ℕ) {p : Place}
    → s.place i ≡ p
    → s.place i ≢ outside
    → s.shared.posts ++ left s.shared p ≡ sent_posts quorum l m serial.history
left_of quorum l m s serial i e inside =
    subst (λ (x : Place). s.shared.posts ++ left s.shared x ≡ sent_posts quorum l m serial.history)
      e (serial.part i inside)

Access-IsSerial :
    (quorum : List ConnContext) (l : Log) (m : Mem) (s : Callers) (held : IsHeld s)
    → IsSerial quorum l m s
    → (i : ℕ) {u : Shared} {p q : Place} → s.place i ≡ p
    → Access quorum s.shared p u q
    → IsSerial quorum l m (record { shared = u; place = put s.place i q })
Access-IsSerial quorum l m s held serial i e (prepare h) = record {
  history = serial.history;
  state = serial.state;
  full = λ out. serial.full (λ a. same a (out a));
  part = λ a inside.
      let e' = same_place a in
      subst
        (λ (x : Place). s.shared.posts ++ left s.shared x ≡ sent_posts quorum l m serial.history)
        (sym e') (serial.part a (λ z. inside (e' ∙ z)));
}
  where
    same_place : (a : ℕ) → put s.place i outside a ≡ s.place a
    same_place a = elim (Bool-cases (a == i)) [
      | inl t ↦
          let q : a ≡ i = (==_iff _ _).0 t in
          ap (put s.place i outside) q ∙ put_self s.place i outside ∙ sym e ∙ sym (ap s.place q)
      | inr f ↦ put_ne s.place i outside a (ne_of _ _ f)
    ]

    same : (a : ℕ) → put s.place i outside a ≡ outside → s.place a ≡ outside
    same a z = sym (same_place a) ∙ z
Access-IsSerial quorum l m s held serial i e (start_write curr free) =
    let out = free-outside s held free in
    one-IsSerial quorum l m s held i (record s.shared { writer_lock = true }) (locked curr)
      serial.history serial.state (λ a _. out a) (append-nil s.shared.posts ∙ serial.full out)
Access-IsSerial quorum l m s held serial i e (choose {curr} fuel latest h r) =
    let inside : s.place i ≢ outside = inside_of s i e (λ z. cc) in
    one-IsSerial quorum l m s held i (record s.shared { heap = h }) (chosen latest) serial.history
      serial.state (others_outside quorum l m s held i s.shared inside)
      (left_of quorum l m s serial i e inside)
Access-IsSerial quorum l m s held serial i e (write {latest} lg mem header r) =
    let inside : s.place i ≢ outside = inside_of s i e (λ z. cc) in
    let request = s.shared.heap latest in
    let sz = sizeof_header + request.buffer_sz + 1 in
    one-IsSerial quorum l m s held i (record s.shared { log = lg; mem = mem })
      (posting header sz quorum) (serial.history ++ request ∷ [])
      (written-snoc l m serial.history request
        ∙ ap
            (λ (x : Log × Mem).
              ((write_local_log x.0 x.1 request).0, (write_local_log x.0 x.1 request).1))
            serial.state
        ∙ ap (λ (y : Log × Mem × ℕ). (y.0, y.1)) r)
      (others_outside quorum l m s held i s.shared inside)
      (ap (λ (y : Log × Mem × ℕ). s.shared.posts ++ map (rpli_post y.0 y.2 sz y.1) quorum) (sym r)
        ∙ ap (λ (x : Log × Mem). s.shared.posts ++ message_posts quorum x.0 x.1 request)
            (sym serial.state)
        ∙ ap
            (λ (ps : List Post).
              ps
              ++ message_posts quorum (written l m serial.history).0 (written l m serial.history).1
                  request)
            (sym (append-nil s.shared.posts) ∙ left_of quorum l m s serial i e inside)
        ∙ sym (sent_posts-snoc quorum l m serial.history request))
Access-IsSerial quorum l m s held serial i e (post {header} {log_sz} {ctx} {ctxs}) =
    let inside : s.place i ≢ outside = inside_of s i e (λ z. cc) in
    let now = rpli_post s.shared.log header log_sz s.shared.mem ctx in
    one-IsSerial quorum l m s held i (record s.shared { posts = s.shared.posts ++ now ∷ [] })
      (posting header log_sz ctxs) serial.history serial.state
      (others_outside quorum l m s held i s.shared inside)
      (append_assoc s.shared.posts _ _ ∙ left_of quorum l m s serial i e inside)
Access-IsSerial quorum l m s held serial i e (end_write {header} {log_sz}) =
    let inside : s.place i ≢ outside = inside_of s i e (λ z. cc) in
    one-IsSerial quorum l m s held i (record s.shared { writer_lock = false }) outside
      serial.history serial.state (others_outside quorum l m s held i s.shared inside)
      (left_of quorum l m s serial i e inside)

Turns-IsSerial :
    {quorum : List ConnContext} {l : Log} {m : Mem} {h : Heap} {s : Callers}
    → Turns quorum (unlocked l m h) s
    → IsSerial quorum l m s
Turns-IsSerial none_yet = record {
  history = [];
  state = refl;
  full = λ _. refl;
  part = λ a inside. absurd (inside refl);
}
Turns-IsSerial {quorum} {l} {m} (turn {t} r i a) =
    Access-IsSerial quorum l m t (Turns-IsHeld r) (Turns-IsSerial r) i refl a

-- For any number of callers of `write_request`, in any order of their accesses, from a state in which
-- none is inside: no two are between `__START_WRITE__` and `__END_WRITE__`; and there is a sequence of
-- messages such that the log and the bytes are what writing them one after another leaves, and the
-- posts, once none is inside, those of the messages in that order, each to every peer once; while one
-- is inside, the posts that it has still to make complete them.
pub Turns-serial :
    {quorum : List ConnContext} {l : Log} {m : Mem} {h : Heap} {s : Callers}
    → Turns quorum (unlocked l m h) s
    → ((a b : ℕ) → s.place a ≢ outside → s.place b ≢ outside → a ≡ b)
      × ((history : List SlotEntry) × (written l m history ≡ (s.shared.log, s.shared.mem))
          × (((a : ℕ) → s.place a ≡ outside) → s.shared.posts ≡ sent_posts quorum l m history)
          × ((a : ℕ)
              → s.place a ≢ outside
              → s.shared.posts ++ left s.shared (s.place a) ≡ sent_posts quorum l m history))
Turns-serial r =
    let serial = Turns-IsSerial r in
    ((Turns-IsHeld r).alone, (serial.history, serial.state, serial.full, serial.part))
