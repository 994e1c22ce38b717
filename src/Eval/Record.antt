-- ===== src/Eval/Record.antt =====
-- The arrays of a recorder.
use scot.Base.{
  ℕ, zero, suc, ◌+◌, ◌-◌, ◌%◌, ◌^◌, ◌≡◌, ◌<◌, ◌≤◌, refl, false, none, some, List, [], ◌∷◌,
  get_elem?, length, ltb, if◌then◌else◌, ◌∙◌, ap, arith,
}
use scot.Eval.{
  Timespec, ScotTimestamp, scot_timestamp, scot_timestamp_records, new_array, set_elem,
  record_start, record_end,
}

-- Both arrays have the size of the recorder, and no more than that many records were started.
pub record IsRecorder (ts : ScotTimestamp) : Type 0 where
  pub start_sz : length ts.start ≡ ts.rec_sz
  pub end_sz : length ts.end ≡ ts.rec_sz
  pub room : ts.next ≤ ts.rec_sz
  pub word : ts.rec_sz < 2 ^ 64

length-new_array : (n : ℕ) → length (new_array n) ≡ n
unfolding new_array
length-new_array zero = refl
length-new_array (suc n) = ap suc (length-new_array n)

pub scot_timestamp-IsRecorder : (n : ℕ) → n < 2 ^ 64 → IsRecorder (scot_timestamp n)
unfolding scot_timestamp
scot_timestamp-IsRecorder n l = record {
  start_sz = length-new_array n;
  end_sz = length-new_array n;
  room = omega arith;
  word = l;
}

set_elem-some :
    (xs : List Timespec) (i : ℕ) (t : Timespec)
    → i < length xs
    → (ys : List Timespec) × (set_elem xs i t ≡ some ys)
      × (length ys ≡ length xs)
      × (get_elem? ys i ≡ some t)
unfolding set_elem
set_elem-some [] i t l = absurd (omega arith)
set_elem-some (x ∷ xs) zero t l = (t ∷ xs, refl, refl, refl)
set_elem-some (x ∷ xs) (suc i) t l =
    let (ys, e, len, at) = set_elem-some xs i t (omega arith) in (x ∷ ys, rw e refl, ap suc len, at)

set_elem-none : (xs : List Timespec) (i : ℕ) (t : Timespec) → length xs ≤ i → set_elem xs i t ≡ none
unfolding set_elem
set_elem-none [] i t l = refl
set_elem-none (x ∷ xs) zero t l = absurd (omega arith)
set_elem-none (x ∷ xs) (suc i) t l = rw (set_elem-none xs i t (omega arith)) refl

-- A recorder with room takes a record: `record_start` returns the next index, `record_end` returns for that
-- index, the two readings stand under it, one more record is counted, and the recorder stays well-formed.
-- The size is at most SCOT_TIMESTAMP_RECORDS.
pub record_start-record_end :
    (ts : ScotTimestamp)
    → IsRecorder ts
    → ts.next < ts.rec_sz
    → ts.rec_sz ≤ scot_timestamp_records
    → (t u : Timespec)
    → (ts1 ts2 : ScotTimestamp) × (record_start ts t ≡ some (ts.next, ts1))
      × (record_end ts1 ts.next u ≡ some ts2)
      × (get_elem? ts2.start ts.next ≡ some t)
      × (get_elem? ts2.end ts.next ≡ some u)
      × (ts2.next ≡ ts.next + 1)
      × IsRecorder ts2
unfolding record_start record_end
record_start-record_end ts w l small t u =
    let (ss, e, len, at) = set_elem-some ts.start ts.next t (omega (arith, w.start_sz)) in
    let (es, f, len', at') = set_elem-some ts.end ts.next u (omega (arith, w.end_sz)) in
    let in_range : ltb (scot_timestamp_records - 1) ts.next ≡ false = ground arith in
    let count : (ts.next + 1) % 2 ^ 64 ≡ ts.next + 1 = omega (arith, w.word) in
    let ts1 : ScotTimestamp = record ts { start = ss; next = (ts.next + 1) % 2 ^ 64 } in
    let ts2 : ScotTimestamp = record ts1 { end = es } in
    (
      ts1,
      ts2,
      rw e refl,
      rw (in_range, f) refl,
      at,
      at',
      count,
      record {
        start_sz = len ∙ w.start_sz;
        end_sz = len' ∙ w.end_sz;
        room = omega (arith, count);
        word = w.word;
      },
    )

-- A full recorder: `record_start` does not check its index, so it writes past its array; `record_end` compares
-- the index with SCOT_TIMESTAMP_RECORDS, not with the size of the array, so an index between the two is
-- written past the array as well, while an index that is not below the constant changes nothing.
pub record-full :
    (ts : ScotTimestamp)
    → IsRecorder ts
    → ts.next ≡ ts.rec_sz
    → (t : Timespec) (index : ℕ) → ts.rec_sz ≤ index
    → (record_start ts t ≡ none)
      × (record_end ts index t ≡ (if ltb (scot_timestamp_records - 1) index then some ts else none))
unfolding record_start record_end
record-full ts w full t index past = (
  rw (set_elem-none ts.start ts.next t (omega (arith, w.start_sz))) refl,
  rw (set_elem-none ts.end index t (omega (arith, w.end_sz))) refl,
)
