-- ===== src/Mark.antt =====
-- src/includes/lfmap.hh, the marking macros: the two low bits of a `ScotSlotEntry*` say that the
-- entry which holds the pointer is deleted (XXX) or protected (YYY). `c & ~ALL` is `c / 4 * 4`.
pub mod Laws
pub mod Written
use Prim.Native.Nat.{bit_or}
use scot.Base.{ℕ, ◌+◌, ◌*◌, ◌/◌, ◌%◌, ◌≡◌, ◌≤◌, Bool, true, false, not, arith, ◌==◌}

-- `IS_MARKED_AS_DELETED`: bit 0, XXX.
unfoldable pub is_marked_as_deleted : ℕ → Bool
is_marked_as_deleted c = not (c % 2 == 0)

-- `IS_MARKED_AS_PROTECTED`: bit 1, YYY.
unfoldable pub is_marked_as_protected : ℕ → Bool
is_marked_as_protected c = not (c / 2 % 2 == 0)

-- `IS_MARKED_REFERENCE(c, ALL)`: either bit.
unfoldable pub is_marked_reference : ℕ → Bool
is_marked_reference c = not (c % 4 == 0)

unfoldable pub get_unmarked_reference : ℕ → ℕ
get_unmarked_reference c = c / 4 * 4

unfoldable pub get_marked_as_deleted : ℕ → ℕ
get_marked_as_deleted c = c / 4 * 4 + 1

unfoldable pub get_marked_as_protected : ℕ → ℕ
get_marked_as_protected c = c / 4 * 4 + 2

unfoldable pub is_same_baseref : ℕ → ℕ → Bool
is_same_baseref a b = a / 4 * 4 == b / 4 * 4

-- `a | (b & ALL)`: only the two low bits of `a` can change.
unfoldable pub get_same_mark : ℕ → ℕ → ℕ
get_same_mark a b = a / 4 * 4 + bit_or (a % 4) (b % 4)
