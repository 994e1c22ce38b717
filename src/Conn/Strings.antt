-- ===== src/Conn/Strings.antt =====
-- Strings as lists of character codes: `std::to_string` and `std::stoi` for what is not negative, and
-- how a list is taken apart at its last dash.
use Prim.Native.Char.{code}
use Prim.Native.String.{String}
use scot.Base.{
  ℕ, zero, suc, ◌+◌, ◌-◌, ◌*◌, ◌/◌, ◌%◌, ◌≡◌, ◌≢◌, ◌<◌, ◌≤◌, Bool, true, ◌&&◌, Option, none, some,
  List, [], ◌∷◌, ◌++◌, ltb, leb, if◌then◌else◌, refl, ap, ◌∙◌, inl, inr, Bool-cases, arith,
}

-- std::string
abbrev pub Text : Type 0
Text = List ℕ

abbrev pub codes : String → Text
codes String.[] = []
codes (String.◌∷◌ c s) = code c ∷ codes s

digits : ℕ → ℕ → Text
digits zero n = []
digits (suc fuel) n = if ltb n 10 then (48 + n) ∷ [] else digits fuel (n / 10) ++ (48 + n % 10) ∷ []

-- `std::to_string(n)`
unfoldable pub to_string : ℕ → Text
unfolding digits
to_string n = digits (suc n) n

is_digit : ℕ → Bool
is_digit c = leb 48 c && leb c 57

stoi_loop : ℕ → Text → ℕ
stoi_loop acc [] = acc
stoi_loop acc (c ∷ cs) =
    let rest = stoi_loop (acc * 10 + (c - 48)) cs in if is_digit c then rest else acc

-- `std::stoi(s)`, for an `s` that begins with a digit; `none` is its exception.
unfoldable pub stoi : Text → Option ℕ
unfolding stoi_loop is_digit
stoi [] = none
stoi (c ∷ cs) = if is_digit c then some (stoi_loop 0 (c ∷ cs)) else none

abbrev IsDigits : Text → Type 0
IsDigits [] = Unit {0}
IsDigits (c ∷ cs) = (48 ≤ c) × (c ≤ 57) × IsDigits cs

IsDigits-append : (s : Text) (c : ℕ) → IsDigits s → 48 ≤ c → c ≤ 57 → IsDigits (s ++ c ∷ [])
IsDigits-append [] c d lo hi = (lo, hi, tt)
IsDigits-append (x ∷ s) c d lo hi = (d.0, d.1, IsDigits-append s c d.2 lo hi)

digits-IsDigits : (fuel n : ℕ) → IsDigits (digits fuel n)
unfolding digits
digits-IsDigits zero n = tt
digits-IsDigits (suc fuel) n = elim (Bool-cases (ltb n 10)) [
  | inl small ↦ rw small (omega arith, ground arith, tt)
  | inr large ↦
      rw large (
        IsDigits-append _ (48 + n % 10) (digits-IsDigits fuel (n / 10)) (omega arith) (omega arith))
]

stoi_loop-append :
    (s : Text) (acc c : ℕ)
    → IsDigits s
    → 48 ≤ c
    → c ≤ 57
    → stoi_loop acc (s ++ c ∷ []) ≡ stoi_loop acc s * 10 + (c - 48)
unfolding stoi_loop is_digit
stoi_loop-append [] acc c d lo hi = ground arith
stoi_loop-append (x ∷ s) acc c d lo hi =
    ground (arith, stoi_loop-append s (acc * 10 + (x - 48)) c d.2 lo hi)

stoi_loop-digits : (fuel n : ℕ) → n < fuel → stoi_loop 0 (digits fuel n) ≡ n
unfolding digits stoi_loop is_digit
stoi_loop-digits zero n h = absurd (omega arith)
stoi_loop-digits (suc fuel) n h = elim (Bool-cases (ltb n 10)) [
  | inl small ↦ rw small (ground arith)
  | inr large ↦
      let shorter : n / 10 < fuel = ground arith in
      rw large (
        stoi_loop-append (digits fuel (n / 10)) 0 (48 + n % 10) (digits-IsDigits fuel (n / 10))
          (omega arith) (omega arith)
        ∙ omega (arith, stoi_loop-digits fuel (n / 10) shorter))
]

digits-cons : (fuel n : ℕ) → (c : ℕ) × (cs : Text) × (digits (suc fuel) n ≡ c ∷ cs)
unfolding digits
digits-cons fuel n = elim (Bool-cases (ltb n 10)) [
  | inl small ↦ (48 + n, [], rw small)
  | inr large ↦
      let (c, cs, e) = cons_cases (digits fuel (n / 10)) (48 + n % 10) in (c, cs, rw large e)
]
  where
    cons_cases : (s : Text) (d : ℕ) → (c : ℕ) × (cs : Text) × (s ++ d ∷ [] ≡ c ∷ cs)
    cons_cases [] d = (d, [], refl)
    cons_cases (c ∷ cs) d = (c, cs ++ d ∷ [], refl)

-- `std::stoi` reads back what `std::to_string` writes.
pub stoi-to_string : (n : ℕ) → stoi (to_string n) ≡ some n
unfolding stoi to_string
stoi-to_string n =
    let (c, cs, e) = digits-cons n n in
    let d : IsDigits (c ∷ cs) = rw e at (digits-IsDigits (suc n) n) in
    let first : is_digit c ≡ true = unfold is_digit in ground arith in
    let value : stoi_loop 0 (c ∷ cs) ≡ n = rw e at (stoi_loop-digits (suc n) n (omega arith)) in
    rw (e, first) (ap some (rw first at value))

pub to_string-injective : (m n : ℕ) → to_string m ≡ to_string n → m ≡ n
to_string-injective m n e = cc (stoi-to_string m, stoi-to_string n, e)

-- A dash is no digit.
abbrev pub NoDash : Text → Type 0
NoDash [] = Unit {0}
NoDash (c ∷ cs) = (c ≢ 45) × NoDash cs

IsDigits-NoDash : (s : Text) → IsDigits s → NoDash s
IsDigits-NoDash [] d = tt
IsDigits-NoDash (c ∷ cs) d = (λ e. omega arith, IsDigits-NoDash cs d.2)

pub to_string-NoDash : (n : ℕ) → NoDash (to_string n)
unfolding to_string
to_string-NoDash n = IsDigits-NoDash (digits (suc n) n) (digits-IsDigits (suc n) n)

NoDash-append : (s t : Text) → NoDash (s ++ 45 ∷ t) → ⊥
NoDash-append [] t d = d.0 refl
NoDash-append (c ∷ s) t d = NoDash-append s t d.1

-- The part behind the last dash, and the part before it.
pub last_dash :
    (s t d e : Text) → NoDash d → NoDash e → s ++ 45 ∷ d ≡ t ++ 45 ∷ e → (s ≡ t) × (d ≡ e)
last_dash [] [] d e nd ne p = (refl, cc)
last_dash [] (c ∷ t) d e nd ne p =
    let q : d ≡ t ++ 45 ∷ e = cc in absurd (NoDash-append t e (rw q at nd))
last_dash (c ∷ s) [] d e nd ne p =
    let q : e ≡ s ++ 45 ∷ d = cc in absurd (NoDash-append s d (rw q at ne))
last_dash (c ∷ s) (b ∷ t) d e nd ne p =
    let q : s ++ 45 ∷ d ≡ t ++ 45 ∷ e = cc in
    let r = last_dash s t d e nd ne q in let heads : c ≡ b = cc in (cc (heads, r.0), r.1)

-- To tell two known strings apart.
