-- ===== src/Eval/Dump.antt =====
-- What a recorder writes to its files.
use mathlib.Core.List.{Perm}
use scot.Base.{
  if◌then◌else◌, ◌>>=◌, Option, none, ◌+◌, ◌^◌, ℕ, zero, suc, ◌*◌, ◌/◌, ◌≡◌, ◌<◌, ◌≤◌, inl, inr,
  refl, true, false, some, is_some, List, [], ◌∷◌, get_elem?, length, ltb, ap, ◌∙◌, Bool-cases,
  arith,
}
use scot.Base.Int.{ℤ}
use scot.Eval.{
  Products, scot_timestamp_records, Timespec, ScotTimestamp, Statistics, elapsed_nsec, to_signed,
  elapsed_loop, le_int, sort, dump_statistics, dump_to_fs,
}
use scot.Eval.Sort.{
  IsSorted, sort-Perm, sort-IsSorted, length-sort, get_elem?-some, get_elem?-ordered,
}
use scot.Eval.Record.{IsRecorder}

-- The loop returns one time for each record, as long as its index fits.
elapsed_loop-some :
    (i k : ℕ) (ss es : List Timespec)
    → i + k < 2 ^ 31
    → k ≤ length ss
    → k ≤ length es
    → (xs : List ℤ) × (elapsed_loop i k ss es ≡ some xs) × (length xs ≡ k)
unfolding elapsed_loop
elapsed_loop-some i zero ss es fits l m = ([], refl, refl)
elapsed_loop-some i (suc k) [] es fits l m = absurd (omega arith)
elapsed_loop-some i (suc k) (s ∷ ss) [] fits l m = absurd (omega arith)
elapsed_loop-some i (suc k) (s ∷ ss) (e ∷ es) fits l m =
    let (xs, p, len) =
      elapsed_loop-some (i + 1) k ss es (omega arith) (omega arith) (omega arith) in
    let small : ltb (i + 1) (2 ^ 31) ≡ true = ground arith in
    (to_signed (elapsed_nsec s e) ∷ xs, rw (small, p) refl, ap suc len)

-- A round of the loop that returns: its time, and those of the later rounds.
loop_step :
    (i : ℕ) (later : Option (List ℤ)) (x : ℤ) (xs : List ℤ)
    → (if ltb (i + 1) (2 ^ 31) then (do rest ← later; some (x ∷ rest)) else none) ≡ some xs
    → (rest : List ℤ) × (later ≡ some rest) × (x ∷ rest ≡ xs)
loop_step i none x xs p = absurd (ground arith)
loop_step i (some rest) x xs p = elim (Bool-cases (ltb (i + 1) (2 ^ 31))) [
  | inl fits ↦
      let q : some (x ∷ rest) ≡ some xs = rw fits at p in
      let r : x ∷ rest ≡ xs = cc in (rest, refl, r)
  | inr over ↦ let q : none ≡ some xs = rw over at p in absurd (cc)
]

-- Each time is that between the two readings of its record.
pub elapsed_loop-at :
    (i k : ℕ) (ss es : List Timespec) (xs : List ℤ) (j : ℕ) (s e : Timespec)
    → elapsed_loop i k ss es ≡ some xs
    → j < k
    → get_elem? ss j ≡ some s
    → get_elem? es j ≡ some e
    → get_elem? xs j ≡ some (to_signed (elapsed_nsec s e))
unfolding elapsed_loop
elapsed_loop-at i zero ss es xs j s e p l f g = absurd (omega arith)
elapsed_loop-at i (suc k) [] es xs j s e p l f g = cc
elapsed_loop-at i (suc k) (s' ∷ ss) [] xs j s e p l f g = cc
elapsed_loop-at i (suc k) (s' ∷ ss) (e' ∷ es) xs zero s e p l f g =
    let (rest, later, same) = loop_step i (elapsed_loop (i + 1) k ss es) _ xs p in
    let a : s' ≡ s = cc in let b : e' ≡ e = cc in rw (← same, a, b) refl
elapsed_loop-at i (suc k) (s' ∷ ss) (e' ∷ es) xs (suc j) s e p l f g =
    let (rest, later, same) = loop_step i (elapsed_loop (i + 1) k ss es) _ xs p in
    rw (← same) (elapsed_loop-at (i + 1) k ss es rest j s e later (omega arith) f g)

-- What is relied on of the products: for as many records as ScotTimestamp is made for, they are the
-- integer parts of the exact ones.
pub record IsExact (products : Products) : Type 0 where
  pub front : (n : ℕ) → n ≤ scot_timestamp_records → products.front n ≡ n * 1 / 100
  pub tail : (n : ℕ) → n ≤ scot_timestamp_records → products.tail n ≡ n * 99 / 100

dumped :
    (products : Products) (ts : ScotTimestamp) (xs : List ℤ) (a b c : ℤ)
    → elapsed_loop 0 ts.next ts.start ts.end ≡ some xs
    → get_elem? (sort xs) (products.front ts.next) ≡ some a
    → get_elem? (sort xs) (ts.next / 2) ≡ some b
    → get_elem? (sort xs) (products.tail ts.next) ≡ some c
    → dump_to_fs products ts
      ≡ some (record { total = ts.next; front_1 = a; median = b; tail_99 = c }, sort xs)
unfolding dump_to_fs dump_statistics
dumped products ts xs a b c p at_a at_b at_c = rw (p, at_a, at_b, at_c) refl

module _ (products : Products) (exact : IsExact products) (ts : ScotTimestamp) (w : IsRecorder ts)
    (size : ts.rec_sz ≤ scot_timestamp_records) where
  -- What a well-formed recorder of at most 10000000 records dumps, if it has at least one, where
  -- the products with 0.01 and 0.99 are exact up to that number: it returns; the lines of the file are
  -- the times of its records in ascending order, so not in the order of the records; the statistics
  -- count the records; and the 1, 50 and 99 per cent values are lines of the file, in that order of size.
  pub dump_to_fs-IsSorted :
      0 < ts.next
      → (elapsed : List ℤ) × (lines : List ℤ) × (stats : Statistics) × (elapsed_loop 0 ts.next
            ts.start ts.end
          ≡ some elapsed)
        × (dump_to_fs products ts ≡ some (stats, lines))
        × Perm elapsed lines
        × IsSorted lines
        × (stats.total ≡ ts.next)
        × (get_elem? lines (ts.next * 1 / 100) ≡ some stats.front_1)
        × (get_elem? lines (ts.next / 2) ≡ some stats.median)
        × (get_elem? lines (ts.next * 99 / 100) ≡ some stats.tail_99)
        × (le_int stats.front_1 stats.median ≡ true)
        × (le_int stats.median stats.tail_99 ≡ true)
  dump_to_fs-IsSorted some_records =
      let room = w.room in
      let (xs, p, len) =
        elapsed_loop-some 0 ts.next ts.start ts.end (omega arith) (omega (arith, w.start_sz))
          (omega (arith, w.end_sz)) in
      let front = exact.front ts.next (omega arith) in
      let tail = exact.tail ts.next (omega arith) in
      let sorted_len = length-sort xs ∙ len in
      let (a, at_a) = get_elem?-some (sort xs) (ts.next * 1 / 100) (omega (arith, sorted_len)) in
      let (b, at_b) = get_elem?-some (sort xs) (ts.next / 2) (omega (arith, sorted_len)) in
      let (c, at_c) = get_elem?-some (sort xs) (ts.next * 99 / 100) (omega (arith, sorted_len)) in
      let stats : Statistics = record { total = ts.next; front_1 = a; median = b; tail_99 = c } in
      (
        xs,
        sort xs,
        stats,
        p,
        dumped products ts xs a b c p (ap (get_elem? (sort xs)) front ∙ at_a) at_b
            (ap (get_elem? (sort xs)) tail ∙ at_c),
        sort-Perm xs,
        sort-IsSorted xs,
        refl,
        at_a,
        at_b,
        at_c,
        get_elem?-ordered (sort xs) _ _ a b (sort-IsSorted xs) (omega arith) at_a at_b,
        get_elem?-ordered (sort xs) _ _ b c (sort-IsSorted xs) (omega arith) at_b at_c,
      )

  none_started : ts.next ≡ 0 → is_some (dump_to_fs products ts) ≡ false
  unfolding dump_to_fs dump_statistics elapsed_loop sort
  none_started z = rw z refl

  -- A well-formed recorder of at most 10000000 records, where the products with 0.01 and 0.99 are exact
  -- up to that number, dumps without an access outside an array exactly when at least one record was
  -- started: for none, `__dump_statistics` reads the first element of an empty array. The destructor
  -- always dumps.
  pub dump_to_fs-defined : is_some (dump_to_fs products ts) ≡ ltb 0 ts.next
  dump_to_fs-defined = elim (Bool-cases (ltb 0 ts.next)) [
    | inl started ↦
        let returns = (dump_to_fs-IsSorted (ground arith)).4 in rw started (rw returns refl)
    | inr empty ↦ rw empty (none_started (ground arith))
  ]
