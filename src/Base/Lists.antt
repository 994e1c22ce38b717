-- ===== src/Base/Lists.antt =====
-- Lists measured and indexed by native numbers.
use Prim.Native.Nat.{ℕ, zero, suc, ◌+◌}
use mathlib.Core.Path.{◌≡◌, refl, ap, subst}
use mathlib.Core.List.{List, [], ◌∷◌, ◌++◌, map}
use mathlib.Core.Option.{Option, none, some}
use native.Mathlib.Omega.{arith}

module _ {ℓ} {A : Type ℓ} where
  abbrev pub length : List A → ℕ
  length [] = 0
  length (x ∷ xs) = suc (length xs)

  abbrev pub replicate : ℕ → A → List A
  replicate zero x = []
  replicate (suc n) x = x ∷ replicate n x

  abbrev pub get_elem? : List A → ℕ → Option A
  get_elem? [] i = none
  get_elem? (x ∷ xs) zero = some x
  get_elem? (x ∷ xs) (suc i) = get_elem? xs i

  pub length-append : (xs ys : List A) → length (xs ++ ys) ≡ length xs + length ys
  length-append [] ys = omega arith
  length-append (x ∷ xs) ys = omega (arith, length-append xs ys)

-- A predicate holds of each element; it computes to a tuple.
abbrev pub All {ℓ κ} : {A : Type ℓ} → (A → Type κ) → List A → Type κ
All P [] = Unit
All P (x ∷ xs) = P x × All P xs

pub All-map {ℓ κ μ} :
    {A : Type ℓ} (P : A → Type κ) (Q : A → Type μ) (xs : List A)
    → ((x : A) → P x → Q x)
    → All P xs
    → All Q xs
All-map P Q [] f p = tt
All-map P Q (x ∷ xs) f p = (f x p.0, All-map P Q xs f p.1)

pub All-append {ℓ κ} :
    {A : Type ℓ} (P : A → Type κ) (xs ys : List A) → All P xs → All P ys → All P (xs ++ ys)
All-append P [] ys p q = q
All-append P (x ∷ xs) ys p q = (p.0, All-append P xs ys p.1 q)

pub All-through {ℓ ℓ' κ} :
    {A : Type ℓ} {B : Type ℓ'} (P : B → Type κ) (f : A → B) (xs : List A)
    → All (λ x. P (f x)) xs
    → All P (map f xs)
All-through P f [] p = tt
All-through P f (x ∷ xs) p = (p.0, All-through P f xs p.1)

pub map-map {ℓ ℓ' κ} :
    {A : Type ℓ} {B : Type ℓ'} {C : Type κ} (g : B → C) (f : A → B) (xs : List A)
    → map g (map f xs) ≡ map (λ x. g (f x)) xs
map-map g f [] = refl
map-map g f (x ∷ xs) = ap (λ (t : List _). g (f x) ∷ t) (map-map g f xs)

pub get_elem?-map {ℓ κ} :
    {A : Type ℓ} {B : Type κ} (f : A → B) (xs : List A) (i : ℕ) (x : A)
    → get_elem? xs i ≡ some x
    → get_elem? (map f xs) i ≡ some (f x)
get_elem?-map f [] i x e = absurd (cc)
get_elem?-map f (y ∷ ys) zero x e =
    ap (λ (o : Option _). elim o [ none ↦ none | some z ↦ some (f z) ]) e
get_elem?-map f (y ∷ ys) (suc i) x e = get_elem?-map f ys i x e

-- Two lists whose elements agree in what `f` and `g` take of them.
pub get_elem?-agree {ℓ} :
    {A B C : Type ℓ} (f : A → C) (g : B → C) (xs : List A) (ys : List B) (i : ℕ) (y : B)
    → map f xs ≡ map g ys
    → get_elem? ys i ≡ some y
    → (x : A) × (get_elem? xs i ≡ some x) × (f x ≡ g y)
get_elem?-agree f g xs [] i y e at = absurd (cc)
get_elem?-agree f g [] (z ∷ ys) i y e at = absurd (cc)
get_elem?-agree f g (x ∷ xs) (z ∷ ys) zero y e at = (x, refl, cc)
get_elem?-agree f g (x ∷ xs) (z ∷ ys) (suc i) y e at = get_elem?-agree f g xs ys i y (cc) at

pub All-get_elem? {ℓ κ} :
    {A : Type ℓ} (P : A → Type κ) (xs : List A) (i : ℕ) (x : A)
    → All P xs
    → get_elem? xs i ≡ some x
    → P x
All-get_elem? P [] i x p e = absurd (cc)
All-get_elem? P (y ∷ ys) zero x p e = let q : y ≡ x = cc in subst P q p.0
All-get_elem? P (y ∷ ys) (suc i) x p e = All-get_elem? P ys i x p.1 e
