-- ===== src/Lfmap/Threads/Locals.antt =====
-- What the local variables of a call of `__ht_try_insert` promise at each place, and that the other
-- calls cannot break it.
use scot.Base.{ℕ, ◌%◌, ◌≡◌, ◌≢◌, ◌≤◌, ◌<◌, true, false}
use scot.Mark.{is_marked_as_deleted}
use scot.Mark.Written.{base}
use scot.Lfmap.Threads.{
  Calls, Links, Stage, starting, started, reading, protecting, keeping, relinking, inserting,
  insert_linked, switching, switch_linked, done,
}

-- An entry behind which `new` is looked for: its hash value is not larger, and smaller unless it was
-- deleted.
pub record IsBehind (k : Calls) (P : ℕ → Type 0) (m : Links) (new prev : ℕ) : Type 0 where
  pub inside : P prev
  pub le : prev ≢ k.list → k.hashv prev ≤ k.hashv new
  pub late : prev ≢ k.list → k.hashv prev ≡ k.hashv new → is_marked_as_deleted (m prev) ≡ true

abbrev pub IsAhead : Calls → ℕ → ℕ → Type 0
IsAhead k new curr = curr ≢ k.list → k.hashv new < k.hashv curr

-- An entry with the hash value of `new`.
pub record IsSame (k : Calls) (P : ℕ → Type 0) (new curr : ℕ) : Type 0 where
  pub inside : P curr
  pub ne : curr ≢ k.list
  pub eq : k.hashv curr ≡ k.hashv new

abbrev pub Local : Calls → (ℕ → Type 0) → Links → (new : ℕ) → Stage → Type 0
Local k P m new starting = Unit
Local k P m new (started prev_next) = Unit
Local k P m new (reading prev prev_next curr) = IsBehind k P m new prev × P curr
Local k P m new (protecting curr curr_next) =
    IsSame k P new curr × (is_marked_as_deleted curr_next ≡ false)
Local k P m new (keeping prev curr_next) = IsBehind k P m new prev × P (base curr_next)
Local k P m new (relinking prev prev_next curr) =
    IsBehind k P m new prev × P curr × IsAhead k new curr
Local k P m new (inserting prev next) =
    IsBehind k P m new prev
    × IsAhead k new (base next)
    × P (base next)
    × (is_marked_as_deleted next ≡ false)
Local k P m new (insert_linked prev next) =
    IsBehind k P m new prev
    × IsAhead k new (base next)
    × P (base next)
    × (is_marked_as_deleted next ≡ false)
    × (m new ≡ next)
Local k P m new (switching prev next) = IsSame k P new prev × (next % 4 ≡ 0)
Local k P m new (switch_linked prev next) = IsSame k P new prev × (next % 4 ≡ 0) × (m new ≡ next)
Local k P m new done = Unit

-- What the other calls do: entries are added, none is undeleted, and `new` is left alone.
pub record IsLater (P Q : ℕ → Type 0) (m n : Links) : Type 0 where
  pub more : (a : ℕ) → P a → Q a
  pub deleted :
      (a : ℕ) → P a → is_marked_as_deleted (m a) ≡ true → is_marked_as_deleted (n a) ≡ true

module _ (k : Calls) (P Q : ℕ → Type 0) (m n : Links) (later : IsLater P Q m n) (new : ℕ) where
  pub IsBehind-later : (prev : ℕ) → IsBehind k P m new prev → IsBehind k Q n new prev
  IsBehind-later prev b = record {
    inside = later.more prev b.inside;
    le = b.le;
    late = λ ne e. later.deleted prev b.inside (b.late ne e);
  }

  pub IsSame-later : (curr : ℕ) → IsSame k P new curr → IsSame k Q new curr
  IsSame-later curr s = record { inside = later.more curr s.inside; ne = s.ne; eq = s.eq }

  pub Local-later : (p : Stage) → (p ≢ done → n new ≡ m new) → Local k P m new p → Local k Q n new p
  Local-later starting same l = tt
  Local-later (started prev_next) same l = tt
  Local-later (reading prev prev_next curr) same l = (IsBehind-later prev l.0, later.more curr l.1)
  Local-later (protecting curr curr_next) same l = (IsSame-later curr l.0, l.1)
  Local-later (keeping prev curr_next) same l =
      (IsBehind-later prev l.0, later.more (base curr_next) l.1)
  Local-later (relinking prev prev_next curr) same l =
      (IsBehind-later prev l.0, later.more curr l.1, l.2)
  Local-later (inserting prev next) same l =
      (IsBehind-later prev l.0, l.1, later.more (base next) l.2, l.3)
  Local-later (insert_linked prev next) same l =
      (IsBehind-later prev l.0, l.1, later.more (base next) l.2, l.3, rw (same (λ e. cc)) l.4)
  Local-later (switching prev next) same l = (IsSame-later prev l.0, l.1)
  Local-later (switch_linked prev next) same l =
      (IsSame-later prev l.0, l.1, rw (same (λ e. cc)) l.2)
  Local-later done same l = tt
