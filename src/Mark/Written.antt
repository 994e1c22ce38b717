-- ===== src/Mark/Written.antt =====
-- What the references that the list's compare-and-swaps write say: their base and their deleted mark.
use scot.Base.{ℕ, ◌+◌, ◌*◌, ◌/◌, ◌%◌, ◌≡◌, true, false, arith}
use scot.Mark.{
  is_marked_as_deleted, get_unmarked_reference, get_marked_as_deleted, get_marked_as_protected,
  get_same_mark,
}
use scot.Mark.Laws.{zero-bit_or}

-- The address that a reference holds.
abbrev pub base : ℕ → ℕ
base c = c / 4 * 4

pub base_aligned : (c : ℕ) → base c % 4 ≡ 0
base_aligned c = omega arith

pub base_of_aligned : (a : ℕ) → a % 4 ≡ 0 → base a ≡ a
base_of_aligned a h = omega arith

pub unmarked-base : (c : ℕ) → get_unmarked_reference c ≡ base c
unfolding get_unmarked_reference
unmarked-base c = omega arith

pub base-protected : (c : ℕ) → base (get_marked_as_protected c) ≡ base c
unfolding get_marked_as_protected
base-protected c = omega arith

pub is_deleted-protected : (c : ℕ) → is_marked_as_deleted (get_marked_as_protected c) ≡ false
unfolding get_marked_as_protected is_marked_as_deleted
is_deleted-protected c = ground arith

pub base-deleted : (c : ℕ) → base (get_marked_as_deleted c) ≡ base c
unfolding get_marked_as_deleted
base-deleted c = omega arith

pub is_deleted-deleted : (c : ℕ) → is_marked_as_deleted (get_marked_as_deleted c) ≡ true
unfolding get_marked_as_deleted is_marked_as_deleted
is_deleted-deleted c = ground arith

pub is_deleted-aligned : (a : ℕ) → a % 4 ≡ 0 → is_marked_as_deleted a ≡ false
unfolding is_marked_as_deleted
is_deleted-aligned a h = ground arith

-- `GET_SAME_MARK(a, c)` for an unmarked `a`.
same_mark_lem : (a c : ℕ) → a % 4 ≡ 0 → get_same_mark a c ≡ a + c % 4
unfolding get_same_mark
same_mark_lem a c h = rw (h, zero-bit_or) (omega arith)

pub base-same_mark : (a c : ℕ) → a % 4 ≡ 0 → base (get_same_mark a c) ≡ a
base-same_mark a c h = rw (same_mark_lem a c h) (omega arith)

pub is_deleted-same_mark :
    (a c : ℕ) → a % 4 ≡ 0 → is_marked_as_deleted (get_same_mark a c) ≡ is_marked_as_deleted c
unfolding is_marked_as_deleted
is_deleted-same_mark a c h =
    let e : (a + c % 4) % 2 ≡ c % 2 = omega arith in rw (same_mark_lem a c h, e)

pub same_mark-aligned : (a c : ℕ) → a % 4 ≡ 0 → c % 4 ≡ 0 → get_same_mark a c ≡ a
same_mark-aligned a c h e = rw (same_mark_lem a c h) (omega arith)

pub same_mark-mod : (a c : ℕ) → a % 4 ≡ 0 → get_same_mark a c % 4 ≡ c % 4
same_mark-mod a c h = rw (same_mark_lem a c h) (omega arith)
