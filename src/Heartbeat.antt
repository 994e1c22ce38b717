-- ===== src/Heartbeat.antt =====
-- src/scot-hb.cc and src/includes/scot-hb.hh, class ScotHeartbeat, and the scoreboard that it is to beat
-- on. The body of the beating thread is empty.
pub mod Register
use scot.Base.{ℕ, zero, suc, Bool, true, false, List, [], ◌∷◌, ◌==◌, if◌then◌else◌}

abbrev pub scot_max_qsize : ℕ
scot_max_qsize = 9

pub record ScotScoreboard : Type 0 where
  pub score : ℕ
  pub status : ℕ
  pub reserved : ℕ

-- `scb_open` is the address of a scoreboard, or 0; `beater` says whether the thread was spawned.
pub record ScotHeartbeat : Type 0 where
  pub scb_open : ℕ
  pub scb_table : List ScotScoreboard
  pub beater : Bool

-- A table of `n` scoreboards, whose contents nobody has set.
abbrev pub blank_table : ℕ → List ScotScoreboard
blank_table zero = []
blank_table (suc n) = record { score = 0; status = 0; reserved = 0 } ∷ blank_table n

-- The constructor; without an argument `addr` is 0.
abbrev pub scot_heartbeat : (addr : ℕ) → ScotHeartbeat
scot_heartbeat addr = record {
  scb_open = addr;
  scb_table = blank_table scot_max_qsize;
  beater = false;
}

abbrev pub beater_spawn : ScotHeartbeat → ScotHeartbeat
beater_spawn hb = record hb { beater = true }

unfoldable pub register_scb : ScotHeartbeat → (addr : ℕ) → ScotHeartbeat
register_scb hb addr = if hb.scb_open == 0 then record hb { scb_open = addr } else hb

-- Registrations one after another.
unfoldable pub register_all : ScotHeartbeat → List ℕ → ScotHeartbeat
register_all hb [] = hb
register_all hb (addr ∷ addrs) = register_all (register_scb hb addr) addrs
