-- ===== src/Eval/Examples.antt =====
-- A recorder of four records, three of them used.
use mathlib.Core.List.{Perm}
use scot.Base.{
  ℕ, ◌*◌, ◌/◌, ◌≡◌, refl, true, false, none, some, is_some, List, [], ◌∷◌, get_elem?, arith,
}
use scot.Base.Int.{ℤ, pos, negsuc}
use scot.Eval.{
  Products, Timespec, ScotTimestamp, Statistics, scot_timestamp, record_start, record_end,
  elapsed_nsec, to_signed, elapsed_loop, le_int, sort, sort_insert, dump_statistics, dump_to_fs,
}
use scot.Eval.Sort.{IsSorted}
use scot.Eval.Record.{IsRecorder, scot_timestamp-IsRecorder, record-full}
use scot.Eval.Dump.{IsExact, dump_to_fs-IsSorted, dump_to_fs-defined}

abbrev at_time : ℕ → Timespec
at_time n = record { tv_sec = 5; tv_nsec = n }

abbrev full : ScotTimestamp
full = record {
  rec_sz = 3;
  start = at_time 10 ∷ at_time 20 ∷ at_time 30 ∷ [];
  end = at_time 90 ∷ at_time 25 ∷ at_time 20 ∷ [];
  next = 3;
}

full-IsRecorder : IsRecorder full
full-IsRecorder = record { start_sz = refl; end_sz = refl; room = omega arith; word = omega arith }

abbrev exact : Products
exact = record { front = λ n. n * 1 / 100; tail = λ n. n * 99 / 100 }

exact-IsExact : IsExact exact
exact-IsExact = record { front = λ n le. refl; tail = λ n le. refl }

dumped_test :
    dump_to_fs exact full
    ≡ some (
      record { total = 3; front_1 = negsuc 9; median = pos 5; tail_99 = pos 80 },
      negsuc 9 ∷ pos 5 ∷ pos 80 ∷ [],
    )
unfolding dump_to_fs dump_statistics elapsed_loop elapsed_nsec to_signed sort sort_insert
dumped_test = refl

record-full_example :
    (record_start full (at_time 40) ≡ none) × (record_end full 3 (at_time 40) ≡ none)
record-full_example = record-full full full-IsRecorder refl (at_time 40) 3 (omega arith)

dump_to_fs-IsSorted_example :
    (elapsed : List ℤ) × (lines : List ℤ) × (stats : Statistics) × (elapsed_loop 0 3 full.start
        full.end
      ≡ some elapsed)
    × (dump_to_fs exact full ≡ some (stats, lines))
    × Perm elapsed lines
    × IsSorted lines
    × (stats.total ≡ 3)
    × (get_elem? lines (3 * 1 / 100) ≡ some stats.front_1)
    × (get_elem? lines (3 / 2) ≡ some stats.median)
    × (get_elem? lines (3 * 99 / 100) ≡ some stats.tail_99)
    × (le_int stats.front_1 stats.median ≡ true)
    × (le_int stats.median stats.tail_99 ≡ true)
dump_to_fs-IsSorted_example =
    dump_to_fs-IsSorted exact exact-IsExact full full-IsRecorder (omega arith) (omega arith)

dump_to_fs-defined_example : is_some (dump_to_fs exact (scot_timestamp 2)) ≡ false
unfolding scot_timestamp
dump_to_fs-defined_example =
    dump_to_fs-defined exact exact-IsExact (scot_timestamp 2)
      (scot_timestamp-IsRecorder 2 (omega arith)) (omega arith)
