-- ===== src/Eval/Sort.antt =====
-- Sorting the elapsed times.
use mathlib.Core.List.{Perm}
use mathlib.Core.List.Perm
use scot.Base.{
  ℕ, zero, suc, ◌≡◌, ◌<◌, ◌≤◌, inl, inr, refl, true, false, All, All-map, some, List, [], ◌∷◌,
  get_elem?, length, Bool-cases, subst, arith,
}
use scot.Base.Int.{ℤ, pos, negsuc}
use scot.Eval.{le_int, sort_insert, sort}

-- No element is above a later one.
abbrev pub IsSorted : List ℤ → Type 0
IsSorted [] = Unit
IsSorted (x ∷ xs) = All (λ y. le_int x y ≡ true) xs × IsSorted xs

le_int-total : (x y : ℤ) → le_int x y ≡ false → le_int y x ≡ true
le_int-total (pos a) (pos b) h = ground arith
le_int-total (pos a) (negsuc b) h = refl
le_int-total (negsuc a) (pos b) h = cc
le_int-total (negsuc a) (negsuc b) h = ground arith

le_int_trans : (x y z : ℤ) → le_int x y ≡ true → le_int y z ≡ true → le_int x z ≡ true
le_int_trans (pos a) (pos b) (pos c) g h = ground arith
le_int_trans (pos a) (pos b) (negsuc c) g h = cc
le_int_trans (pos a) (negsuc b) z g h = cc
le_int_trans (negsuc a) (pos b) (pos c) g h = refl
le_int_trans (negsuc a) (pos b) (negsuc c) g h = cc
le_int_trans (negsuc a) (negsuc b) (pos c) g h = refl
le_int_trans (negsuc a) (negsuc b) (negsuc c) g h = ground arith

pub le_int_refl : (x : ℤ) → le_int x x ≡ true
le_int_refl (pos a) = ground arith
le_int_refl (negsuc a) = ground arith

sort_insert-Perm : (x : ℤ) (ys : List ℤ) → Perm (x ∷ ys) (sort_insert x ys)
unfolding sort_insert
sort_insert-Perm x [] = Perm.refl _
sort_insert-Perm x (y ∷ ys) = elim (Bool-cases (le_int x y)) [
  | inl le ↦ rw le (Perm.refl _)
  | inr gt ↦ rw gt (Perm.trans (Perm.swap _ _ _) (Perm.cons y (sort_insert-Perm x ys)))
]

pub sort-Perm : (xs : List ℤ) → Perm xs (sort xs)
unfolding sort
sort-Perm [] = Perm.refl _
sort-Perm (x ∷ xs) = Perm.trans (Perm.cons x (sort-Perm xs)) (sort_insert-Perm x (sort xs))

-- What holds of the new element and of the old ones holds of all.
All-sort_insert : (P : ℤ → Type 0) (x : ℤ) (ys : List ℤ) → P x → All P ys → All P (sort_insert x ys)
unfolding sort_insert
All-sort_insert P x [] p q = (p, tt)
All-sort_insert P x (y ∷ ys) p q = elim (Bool-cases (le_int x y)) [
  | inl le ↦ rw le (p, q)
  | inr gt ↦ rw gt (q.0, All-sort_insert P x ys p q.1)
]

sort_insert-IsSorted : (x : ℤ) (ys : List ℤ) → IsSorted ys → IsSorted (sort_insert x ys)
unfolding sort_insert
sort_insert-IsSorted x [] s = (tt, tt)
sort_insert-IsSorted x (y ∷ ys) s = elim (Bool-cases (le_int x y)) [
  | inl le ↦ rw le ((le, All-map _ _ ys (λ z h. le_int_trans x y z le h) s.0), s)
  | inr gt ↦ rw gt (All-sort_insert _ x ys (le_int-total x y gt) s.0, sort_insert-IsSorted x ys s.1)
]

pub sort-IsSorted : (xs : List ℤ) → IsSorted (sort xs)
unfolding sort
sort-IsSorted [] = tt
sort-IsSorted (x ∷ xs) = sort_insert-IsSorted x (sort xs) (sort-IsSorted xs)

length-sort_insert : (x : ℤ) (ys : List ℤ) → length (sort_insert x ys) ≡ suc (length ys)
unfolding sort_insert
length-sort_insert x [] = refl
length-sort_insert x (y ∷ ys) = elim (Bool-cases (le_int x y)) [
  | inl le ↦ rw le refl
  | inr gt ↦ rw (gt, length-sort_insert x ys) refl
]

pub length-sort : (xs : List ℤ) → length (sort xs) ≡ length xs
unfolding sort
length-sort [] = refl
length-sort (x ∷ xs) = rw (length-sort_insert x (sort xs), length-sort xs) refl

-- A place within a list holds an element.
pub get_elem?-some : (xs : List ℤ) (i : ℕ) → i < length xs → (x : ℤ) × (get_elem? xs i ≡ some x)
get_elem?-some [] i l = absurd (omega arith)
get_elem?-some (x ∷ xs) zero l = (x, refl)
get_elem?-some (x ∷ xs) (suc i) l = get_elem?-some xs i (omega arith)

All-get_elem? :
    (P : ℤ → Type 0) (xs : List ℤ) (i : ℕ) (x : ℤ) → All P xs → get_elem? xs i ≡ some x → P x
All-get_elem? P [] i x p e = cc
All-get_elem? P (y ∷ ys) zero x p e = let same : y ≡ x = cc in subst P same p.0
All-get_elem? P (y ∷ ys) (suc i) x p e = All-get_elem? P ys i x p.1 e

-- In a sorted list an earlier place holds no more than a later.
pub get_elem?-ordered :
    (xs : List ℤ) (i j : ℕ) (x y : ℤ)
    → IsSorted xs
    → i ≤ j
    → get_elem? xs i ≡ some x
    → get_elem? xs j ≡ some y
    → le_int x y ≡ true
get_elem?-ordered [] i j x y s le e f = cc
get_elem?-ordered (z ∷ zs) zero zero x y s le e f = let same : x ≡ y = cc in rw same (le_int_refl y)
get_elem?-ordered (z ∷ zs) zero (suc j) x y s le e f =
    let same : z ≡ x = cc in
    subst (λ (t : ℤ). le_int t y ≡ true) same (All-get_elem? _ zs j y s.0 f)
get_elem?-ordered (z ∷ zs) (suc i) zero x y s le e f = absurd (omega arith)
get_elem?-ordered (z ∷ zs) (suc i) (suc j) x y s le e f =
    get_elem?-ordered zs i j x y s.1 (omega arith) e f
