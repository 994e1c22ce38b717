-- ===== src/Slot/Late.antt =====
-- src/scot-slot.cc, `mark_entry_finished`: the store to `ready` comes after the count, and a reset does
-- not wait for it.
use scot.Base.{ℕ, zero, suc, ◌+◌, ◌≡◌, ◌≢◌, ◌≤◌, ◌<◌, refl, sym, subst, u32, arith, ◌∙◌, ◌-◌}
use scot.Slot.{
  Pc, idle, working, counted, Move, take, finish, store_ready, store_ready_last, all_processed,
  store_next_free, store_processed, update, System, step, start, Reach, here, later,
}

update_self : (pc : ℕ → Pc) (i : ℕ) (p : Pc) → update pc i p i ≡ p
update_self pc i p = ground arith

update_ne : (pc : ℕ → Pc) (i j : ℕ) (p : Pc) → i ≢ j → update pc i p j ≡ pc j
update_ne pc i j p ne = ground arith

module _ (n a b : ℕ) (la : a < n) (lb : b < n) (ne : a ≢ b) where
  -- A state is reached with these counters, `a` and `b` at these places.
  abbrev Stands : (next_free processed : ℕ) (p q : Pc) → Type 0
  Stands next_free processed p q =
      (f : ℕ → Pc) × Reach n start
        (record { counters = record { next_free = next_free; processed = processed }; pc = f })
      × (f a ≡ p)
      × (f b ≡ q)

  move_a :
      {x y x' y' : ℕ} {p p' q : Pc}
      → Move
          (record { next_free = x; processed = y })
          p
          (record { next_free = x'; processed = y' })
          p'
      → Stands x y p q
      → Stands x' y' p' q
  move_a {x} {y} {x'} {y'} {p} {p'} m (f, r, ea, eb) = (
    update f a p',
    later r (
        step a la (
          subst
            (λ (z : Pc).
              Move (record { next_free = x; processed = y }) z
                (record { next_free = x'; processed = y' }) p')
            (sym ea) m)),
    update_self f a p',
    update_ne f a b p' ne ∙ eb,
  )

  move_b :
      {x y x' y' : ℕ} {p q q' : Pc}
      → Move
          (record { next_free = x; processed = y })
          q
          (record { next_free = x'; processed = y' })
          q'
      → Stands x y p q
      → Stands x' y' p q'
  move_b {x} {y} {x'} {y'} {p} {q} {q'} m (f, r, ea, eb) = (
    update f b q',
    later r (
        step b lb (
          subst
            (λ (z : Pc).
              Move (record { next_free = x; processed = y }) z
                (record { next_free = x'; processed = y' }) q')
            (sym eb) m)),
    update_ne f b a q' (λ e. ne (sym e)) ∙ ea,
    update_self f b q',
  )

  raised : (k : ℕ) → k ≤ 511 → u32 (k + 1) ≡ suc k
  raised k h = omega arith

  -- `b` gets the next slot.
  b_takes : (k : ℕ) {p : Pc} → k ≤ 511 → Stands k k p idle → Stands (suc k) k p (working k)
  b_takes k {p} h s =
      subst (λ (x : ℕ). Stands x k p (working k)) (raised k h) (move_b (take (omega arith)) s)

  b_counts :
      (k : ℕ) {p : Pc}
      → k ≤ 511
      → Stands (suc k) k p (working k)
      → Stands (suc k) (suc k) p (counted k)
  b_counts k {p} h s =
      subst (λ (x : ℕ). Stands (suc k) x p (counted k)) (raised k h) (move_b finish s)

  -- `b` works through the slots from `k` on.
  b_works : (m k : ℕ) {p : Pc} → m + k ≤ 511 → Stands k k p idle → Stands (m + k) (m + k) p idle
  b_works zero k {p} h s =
      let e : k ≡ zero + k = omega arith in subst (λ (x : ℕ). Stands x x p idle) e s
  b_works (suc m) k {p} h s =
      let e : suc (m + k) ≡ suc m + k = omega arith in
      let t = b_works m k (omega arith) s in
      let u = b_counts (m + k) (omega arith) (b_takes (m + k) (omega arith) t) in
      subst (λ (x : ℕ). Stands x x p idle) e (move_b (store_ready (λ z. omega arith)) u)

  b_works_to : (k l : ℕ) {p : Pc} → k ≤ l → l ≤ 511 → Stands k k p idle → Stands l l p idle
  b_works_to k l {p} h le s =
      let e : l - k + k ≡ l = omega arith in
      subst (λ (x : ℕ). Stands x x p idle) e (b_works (l - k) k (omega arith) s)

  a_counts : (k : ℕ) → k ≤ 510 → Stands k k idle idle → Stands (suc k) (suc k) (counted k) idle
  a_counts k h s =
      let t =
        subst (λ (x : ℕ). Stands x k (working k) idle) (raised k (omega arith))
          (move_a (take (omega arith)) s) in
      subst (λ (x : ℕ). Stands (suc k) x (counted k) idle) (raised k (omega arith))
        (move_a finish t)

  -- `b` gets the last slot and resets.
  b_resets : {p : Pc} → Stands 511 511 p idle → Stands 0 0 p idle
  b_resets s =
      let t = b_counts 511 (omega arith) (b_takes 511 (omega arith) s) in
      move_b store_processed
        (move_b store_next_free (move_b (all_processed refl) (move_b (store_ready_last refl) t)))

  -- The store to `ready` can come late: for two threads among any number, and any slot but the
  -- last one, an interleaving from the constructor's state reaches a state in which one of them has
  -- counted the slot and has still to store 0 to its `ready`, while the slots have been reset, and
  -- the other has got the same slot again and works on it.
  pub late-store :
      (index : ℕ)
      → index < 511
      → (s : System) × Reach n start s × (s.pc a ≡ counted index) × (s.pc b ≡ working index)
  late-store index lt =
      let fresh : Stands 0 0 idle idle = (λ i. idle, here, refl, refl) in
      let before = b_works_to 0 index (omega arith) (omega arith) fresh in
      let waits = a_counts index (omega arith) before in
      let all = b_works_to (suc index) 511 (omega arith) (omega arith) waits in
      let again = b_works_to 0 index (omega arith) (omega arith) (b_resets all) in
      let (f, r, ea, eb) = b_takes index (omega arith) again in (_, r, ea, eb)
