-- ===== src/Core/Node/Examples.antt =====
-- Three nodes over a fabric in which a region's address is made from its key.
use scot.Base.{ℕ, ◌+◌, ◌*◌, ◌%◌, true, some, [], ◌∷◌, refl, arith}
use scot.Entry.{SlotEntry}
use scot.Conn.Strings.{Text, to_string}
use scot.Conn.Calls.{Hartebeest}
use scot.Conn.{Connection, conn_context}
use scot.Core.Node.{Space}
use scot.Core.Node.Linked.{IsFabric, IsSpace, Joined, Reaches, joined, scot_core-linked}
use scot.Entry.{SlotEntryArgs}
use scot.Core.{Judge, rule_balance}

abbrev pub number : Text → ℕ
number [] = 0
number (c ∷ cs) = c + 256 * number cs

abbrev pub fabric : Hartebeest
fabric = record {
  is_pushed = λ c. true;
  local_qp = number;
  local_mr = number;
  remote_mr = number;
  addr = λ p. 4096 + p;
}

pub fabric-IsFabric : IsFabric 3 (λ a. fabric)
fabric-IsFabric = record { pushed = λ a c. refl; fetched = λ a b k lb h. refl }

abbrev pub no_entry : SlotEntry
no_entry = record {
  next = 0;
  hashv = 0;
  ready = 0;
  blocked = 0;
  buffer = 0;
  buffer_sz = 0;
  key = 0;
  key_sz = 0;
  msg = 0;
}

abbrev space : Space
space = record {
  rpli_slot = 512;
  chkr_slot = 65536;
  bucket = 8192;
  heap = λ p. no_entry;
  mem = λ a. a % 251;
}

space-IsSpace : IsSpace space
space-IsSpace = record { aligned = refl; there = λ e. omega arith }

abbrev one_conn : Connection
one_conn = record {
  nid = to_string 1;
  quorum_sz = 3;
  quroum_conns = conn_context 0 ∷ conn_context 2 ∷ [];
}

scot_core-linked_example :
    (ja : Joined 3 fabric space 1) × (jb : Joined 3 fabric space 2) × Reaches ja.node jb.node 1 2
scot_core-linked_example =
    scot_core-linked {n = 3} {hbs = λ a. fabric} fabric-IsFabric {a = 1} {b = 2} (omega arith)
      (omega arith) (ground arith) {sa = space} {sb = space} space-IsSpace space-IsSpace

node_one : Joined 3 fabric space 1
node_one = joined 3 fabric space 1 (λ c. refl) space-IsSpace

-- A rule, and a proposal whose bytes begin at 0.
abbrev pub by_rest : Judge
by_rest = record { rdict = []; active_rule = some (rule_balance 3) }

abbrev pub args : SlotEntryArgs
args = record { hashv = 7; buffer = 0; buffer_sz = 5; key = 0; key_sz = 2; msg = 0 }
