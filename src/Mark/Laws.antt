-- ===== src/Mark/Laws.antt =====
-- The marks of a reference that is written as a base, a multiple of 4, and its two low bits.
use Prim.Native.Nat.{bit_or, bit_or-bitwise}
use scot.Base.{ℕ, ◌+◌, ◌*◌, ◌/◌, ◌%◌, ◌≡◌, ◌<◌, true, not, arith, ◌==◌}
use scot.Mark.{
  is_marked_as_deleted, is_marked_as_protected, get_unmarked_reference, get_marked_as_deleted,
  get_marked_as_protected, is_same_baseref, get_same_mark,
}

pub zero-bit_or : (m : ℕ) → bit_or 0 m ≡ m
zero-bit_or m = bit_or-bitwise 0 m

module _ (q m : ℕ) (aligned : q % 4 ≡ 0) (low : m < 4) where
  pub unmarked_add : get_unmarked_reference (q + m) ≡ q
  unfolding get_unmarked_reference
  unmarked_add = omega arith

  pub deleted_add : get_marked_as_deleted (q + m) ≡ q + 1
  unfolding get_marked_as_deleted
  deleted_add = omega arith

  pub protected_add : get_marked_as_protected (q + m) ≡ q + 2
  unfolding get_marked_as_protected
  protected_add = omega arith

  pub is_deleted_add : is_marked_as_deleted (q + m) ≡ not (m % 2 == 0)
  unfolding is_marked_as_deleted
  is_deleted_add = ground arith

  pub is_protected_add : is_marked_as_protected (q + m) ≡ not (m / 2 == 0)
  unfolding is_marked_as_protected
  is_protected_add = ground arith

-- The mark of `b` on an unmarked `a`.
pub same_mark_add : (a q m : ℕ) → a % 4 ≡ 0 → q % 4 ≡ 0 → m < 4 → get_same_mark a (q + m) ≡ a + m
unfolding get_same_mark
same_mark_add a q m ha hq hm =
    let e : (q + m) % 4 ≡ m = omega arith in rw (ha, e, zero-bit_or) (omega arith)

pub is_same_baseref_add :
    (a q m : ℕ) → a % 4 ≡ 0 → q % 4 ≡ 0 → m < 4 → is_same_baseref (q + m) a ≡ (q == a)
unfolding is_same_baseref
is_same_baseref_add a q m ha hq hm =
    let e : (q + m) / 4 * 4 ≡ q = omega arith in let e' : a / 4 * 4 ≡ a = omega arith in rw (e, e')

pub same_mark_unmarked : (a b : ℕ) → a % 4 ≡ 0 → b % 4 ≡ 0 → get_same_mark a b ≡ a
unfolding get_same_mark
same_mark_unmarked a b ha hb = rw (ha, hb) (omega arith)

pub eq_of_same_baseref : (a b : ℕ) → a % 4 ≡ 0 → b % 4 ≡ 0 → is_same_baseref a b ≡ true → a ≡ b
unfolding is_same_baseref
eq_of_same_baseref a b ha hb e = ground arith
