-- ===== src/Eval.antt =====
-- src/scot-eval.cc and src/includes/scot-eval.hh, class ScotTimestamp: pairs of clock readings, and the
-- statistics of the times between them. `none` is an access outside an array. Products of doubles are a
-- parameter.
pub mod Elapsed
pub mod Sort
pub mod Record
pub mod Dump
mod Examples
use scot.Base.{
  ℕ, zero, suc, ◌+◌, ◌*◌, ◌-◌, ◌/◌, ◌%◌, ◌^◌, Bool, true, false, Option, none, some, List, [], ◌∷◌,
  get_elem?, ltb, leb, if◌then◌else◌, ◌>>=◌,
}
use scot.Base.Int.{ℤ, pos, negsuc}

abbrev pub scot_timestamp_records : ℕ
scot_timestamp_records = 10000000

-- `struct timespec`, as CLOCK_MONOTONIC gives it.
pub record Timespec : Type 0 where
  pub tv_sec : ℕ
  pub tv_nsec : ℕ

-- The arrays `start` and `end` are lists of their lengths.
pub record ScotTimestamp : Type 0 where
  pub rec_sz : ℕ
  pub start : List Timespec
  pub end : List Timespec
  pub next : ℕ

abbrev pub u64 : ℕ → ℕ
u64 n = n % 2 ^ 64

-- Subtraction of two numbers of type unsigned long.
abbrev pub sub_u64 : ℕ → ℕ → ℕ
sub_u64 a b = u64 (u64 a + (2 ^ 64 - u64 b))

-- `__ELAPSED_NSEC__`, in the order in which C++ evaluates it.
unfoldable pub elapsed_nsec : (start end : Timespec) → ℕ
elapsed_nsec start end =
    sub_u64 (sub_u64 (u64 (end.tv_nsec + u64 (end.tv_sec * 1000000000))) start.tv_nsec)
      (u64 (start.tv_sec * 1000000000))

-- An unsigned long as a long long.
unfoldable pub to_signed : ℕ → ℤ
to_signed n = if ltb n (2 ^ 63) then pos n else negsuc (2 ^ 64 - 1 - n)

-- An array of `n` elements that hold nothing in particular, here zeros.
unfoldable pub new_array : ℕ → List Timespec
new_array zero = []
new_array (suc n) = record { tv_sec = 0; tv_nsec = 0 } ∷ new_array n

-- The constructor; no arrays are made for size 0.
unfoldable pub scot_timestamp : (arr_sz : ℕ) → ScotTimestamp
unfolding new_array
scot_timestamp arr_sz = record {
  rec_sz = arr_sz;
  start = new_array arr_sz;
  end = new_array arr_sz;
  next = 0;
}

-- `a[i] = t`
unfoldable pub set_elem : List Timespec → (i : ℕ) → Timespec → Option (List Timespec)
set_elem [] i t = none
set_elem (x ∷ xs) zero t = some (t ∷ xs)
set_elem (x ∷ xs) (suc i) t = do ys ← set_elem xs i t; some (x ∷ ys)

-- `record_start` at the time `now`: the index, and the object after it.
unfoldable pub record_start : ScotTimestamp → (now : Timespec) → Option (ℕ × ScotTimestamp)
record_start ts now = do
  start ← set_elem ts.start ts.next now
  some (ts.next, record ts { start = start; next = u64 (ts.next + 1) })

-- `record_end`
unfoldable pub record_end : ScotTimestamp → (index : ℕ) → (now : Timespec) → Option ScotTimestamp
record_end ts index now =
    if ltb (scot_timestamp_records - 1) index
    then some ts
    else (do end ← set_elem ts.end index now; some (record ts { end = end }))

-- The first loop of `dump_to_fs`, for the `left` records from index `i` on. The index is an int: `none`
-- is also its overflow.
unfoldable pub elapsed_loop : (i left : ℕ) → (start end : List Timespec) → Option (List ℤ)
elapsed_loop i zero start end = some []
elapsed_loop i (suc k) [] end = none
elapsed_loop i (suc k) (s ∷ ss) [] = none
elapsed_loop i (suc k) (s ∷ ss) (e ∷ es) =
    let later = elapsed_loop (i + 1) k ss es in
    if ltb (i + 1) (2 ^ 31)
    then (do rest ← later; some (to_signed (elapsed_nsec s e) ∷ rest))
    else none

-- `a <= b`
abbrev pub le_int : ℤ → ℤ → Bool
le_int (pos a) (pos b) = leb a b
le_int (pos a) (negsuc b) = false
le_int (negsuc a) (pos b) = true
le_int (negsuc a) (negsuc b) = leb b a

-- What `std::sort` leaves.
unfoldable pub sort_insert : ℤ → List ℤ → List ℤ
sort_insert x [] = x ∷ []
sort_insert x (y ∷ ys) = if le_int x y then x ∷ y ∷ ys else y ∷ sort_insert x ys

unfoldable pub sort : List ℤ → List ℤ
sort [] = []
sort (x ∷ xs) = sort_insert x (sort xs)

-- The line of numbers in the file of statistics, times in nanoseconds.
pub record Statistics : Type 0 where
  pub total : ℕ
  pub front_1 : ℤ
  pub median : ℤ
  pub tail_99 : ℤ

-- The products of a number of records with 0.01 and 0.99, computed as doubles and cut to integers.
pub record Products : Type 0 where
  pub front : ℕ → ℕ
  pub tail : ℕ → ℕ

-- `__dump_statistics`, with the sorted array that it leaves.
unfoldable pub dump_statistics :
    Products → (elapsed : List ℤ) → (records : ℕ) → Option (Statistics × List ℤ)
dump_statistics products elapsed records = do
  let sorted = sort elapsed
  front_1 ← get_elem? sorted (products.front records)
  median ← get_elem? sorted (records / 2)
  tail_99 ← get_elem? sorted (products.tail records)
  some (record { total = records; front_1 = front_1; median = median; tail_99 = tail_99 }, sorted)

-- `dump_to_fs`: the statistics, and the lines of the other file; both files can be opened.
unfoldable pub dump_to_fs : Products → ScotTimestamp → Option (Statistics × List ℤ)
dump_to_fs products ts = do
  elapsed ← elapsed_loop 0 ts.next ts.start ts.end
  dump_statistics products elapsed ts.next
