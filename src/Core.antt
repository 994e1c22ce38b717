-- ===== src/Core.antt =====
-- src/includes/scot-rule.hh, the rules of src/sample/scot-balance-rule.cc, the quorum of
-- src/scot-conn.cc, and `propose` of src/scot-core.cc: who owns a hash value, and which writer a
-- proposal goes to.
pub mod Owner
pub mod Node
pub mod Propose
pub mod Ask
pub mod Answer
pub mod Serving
pub mod Own
mod Examples
mod ProposeExamples
use scot.Base.{
  ℕ, zero, suc, ◌+◌, ◌%◌, Bool, Option, none, some, List, [], ◌∷◌, ◌==◌, if◌then◌else◌, ◌>>=◌,
}
use scot.Entry.{SlotEntryArgs, Heap}
use scot.Memory.{Mem}
use scot.Slot.{Counters}
use scot.Lfmap.{LockfreeMap}
use scot.Log.{Log, scot_msgtype_pure}
use scot.Writer.{Writer, ConnContext, Post}
use scot.Writer.Replicate.{write_request}
use scot.Writer.Check.{Checker, chkr_write_request}

-- SCOT_RULEF_T
abbrev pub Rule : Type 0
Rule = ℕ → ℕ

-- ScotJudge: `rdict` is a std::map, here a list with one pair for each key.
pub record Judge : Type 0 where
  pub rdict : List (ℕ × Rule)
  pub active_rule : Option Rule

unfoldable pub find_rule : ℕ → List (ℕ × Rule) → Option Rule
find_rule key [] = none
find_rule key ((k, rule) ∷ rules) = if k == key then some rule else find_rule key rules

-- `std::map::insert`: a key that is there keeps its rule.
unfoldable pub insert_rule : ℕ → Rule → List (ℕ × Rule) → List (ℕ × Rule)
insert_rule key rule [] = (key, rule) ∷ []
insert_rule key rule ((k, old) ∷ rules) =
    if k == key then (k, old) ∷ rules else (k, old) ∷ insert_rule key rule rules

unfoldable pub register_rule : Judge → ℕ → Rule → Judge
unfolding insert_rule
register_rule j key rule = record j { rdict = insert_rule key rule j.rdict }

-- `update_active`; `none` is the exception of `at`.
unfoldable pub update_active : Judge → ℕ → Option Judge
update_active j key = do rule ← find_rule key j.rdict; some (record j { active_rule = some rule })

-- The owner that `judge` writes; `none` is the call of a null rule.
unfoldable pub judge : Judge → ℕ → Option ℕ
judge j hashv = do rule ← j.active_rule; some (rule hashv)

-- `rule_balance_2` and `rule_balance_3`, for the size that `rule_balance_init` was given.
abbrev pub rule_balance : ℕ → Rule
rule_balance qsize hashv = hashv % qsize

-- The ids for which the constructor of ScotConnection makes a ConnContext, from `id` on; `k` are left.
unfoldable pub quorum_ids : (k id nid : ℕ) → List ℕ
quorum_ids zero id nid = []
quorum_ids (suc k) id nid =
    if id == nid then quorum_ids k (id + 1) nid else id ∷ quorum_ids k (id + 1) nid

-- What a writer keeps beside the bytes of its process.
pub record WriterPart : Type 0 where
  pub counters : Counters
  pub log : Log
  pub heap : Heap

pub record CheckerPart : Type 0 where
  pub writer : WriterPart
  pub wait_hashv : ℕ
  pub wait_lock : Bool

abbrev pub part : Writer → WriterPart
part w = record { counters = w.counters; log = w.log; heap = w.heap }

abbrev pub whole : WriterPart → Mem → Writer
whole p m = record { counters = p.counters; log = p.log; heap = p.heap; mem = m }

-- A node: where its slots and table are, its peers, its judge, its writers, and the bytes of its
-- process, which both writers work on. The slots and the table of the one writer and the slots of the
-- other are different objects, so each has entries of its own.
pub record Core : Type 0 where
  pub nid : ℕ
  pub uint_judge : Judge
  pub rpli_slot : ℕ
  pub hasht : LockfreeMap
  pub chkr_slot : ℕ
  pub quorum : List ConnContext
  pub rpli : WriterPart
  pub chkr : CheckerPart
  pub mem : Mem

-- The two writers in the memory of the process.
abbrev pub rpli_writer : Core → Writer
rpli_writer c = whole c.rpli c.mem

abbrev pub chkr_writer : Core → Checker
chkr_writer c = record {
  writer = whole c.chkr.writer c.mem;
  wait_hashv = c.chkr.wait_hashv;
  wait_lock = c.chkr.wait_lock;
}

-- The node after one of its writers has come to a new state.
abbrev pub after_rpli : Core → Writer → Core
after_rpli c w = record c { rpli = part w; mem = w.mem }

abbrev pub after_chkr : Core → Checker → Core
after_chkr c k = record c {
  chkr = record { writer = part k.writer; wait_hashv = k.wait_hashv; wait_lock = k.wait_lock };
  mem = k.writer.mem;
}

unfoldable pub propose : (fuel : ℕ) → Core → SlotEntryArgs → Option (Core × List Post)
propose fuel c sa = do
  owner ← judge c.uint_judge sa.hashv
  if owner == c.nid
      then (do
        (w, posts) ←
            write_request c.rpli_slot c.hasht fuel c.quorum (rpli_writer c)
              (record sa { msg = scot_msgtype_pure })
        some (after_rpli c w, posts))
      else (do
        (k, posts) ← chkr_write_request c.chkr_slot c.quorum (chkr_writer c) sa owner
        some (after_chkr c k, posts))
