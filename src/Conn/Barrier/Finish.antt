-- ===== src/Conn/Barrier/Finish.antt =====
-- Every schedule of the set-up comes to its end.
use scot.Base.{
  ℕ, zero, suc, ◌≡◌, ◌≢◌, ◌<◌, ◌≤◌, ◌⊎◌, ◌∙◌, inl, inr, Bool, false, List, [], ◌∷◌, ◌+◌, ◌==◌, refl,
  sym, ap, ◌++◌, Bool-cases, ==_iff, arith, length,
}
use scot.Conn.Calls.{Call}
use scot.Conn.Phases.{calls_of}
use scot.Conn.Barrier.{Cluster, Step, call, put, Reach, later, Reach-Inv}
use scot.Conn.Barrier.Progress.{Reach-progress, next_of}

-- The calls that the first `n` nodes have left.
abbrev pub total : ℕ → (ℕ → List Call) → ℕ
total zero left = 0
total (suc k) left = length (left k) + total k left

-- `k` steps in a row.
pub data Steps (blocks : Bool) (n : ℕ) : ℕ → Cluster → Cluster → Type 0 where
  done : {s : Cluster} → Steps blocks n 0 s s
  more :
      {k : ℕ} {s t u : Cluster}
      → Step blocks n s t
      → Steps blocks n k t u
      → Steps blocks n (suc k) s u

total-put_above :
    (n i : ℕ) (f : ℕ → List Call) (cs : List Call) → n ≤ i → total n (put f i cs) ≡ total n f
total-put_above zero i f cs l = refl
total-put_above (suc k) i f cs l =
    let rest = total-put_above k i f cs (omega arith) in
    let differ : (i == k) ≡ false = ground arith in rw (differ, rest) refl

total-put :
    (n i : ℕ) (f : ℕ → List Call) (c : Call) (cs : List Call)
    → i < n
    → f i ≡ c ∷ cs
    → suc (total n (put f i cs)) ≡ total n f
total-put zero i f c cs l e = absurd (omega arith)
total-put (suc k) i f c cs l e = elim (Bool-cases (i == k)) [
  | inl same ↦
      let p = (==_iff i k).0 same in
      let here : length (f k) ≡ suc (length cs) = rw (← p, e) refl in
      let rest = total-put_above k i f cs (omega arith) in rw same (omega arith)
  | inr differ ↦
      let lk : i < k = ground arith in
      let rest = total-put k i f c cs lk e in rw differ (omega arith)
]

pub total-Step :
    {blocks : Bool} {n : ℕ} {s t : Cluster}
    → Step blocks n s t
    → suc (total n t.left) ≡ total n s.left
total-Step {n = n} {s = s} (call i c cs li e _ _ _) = total-put n i s.left c cs li e

total-Steps :
    {blocks : Bool} {n k : ℕ} {s t : Cluster}
    → Steps blocks n k s t
    → k + total n t.left ≡ total n s.left
total-Steps done = omega arith
total-Steps (more st ss) = let a = total-Steps ss in let b = total-Step st in omega arith

busy_or_done :
    (n : ℕ) (f : ℕ → List Call)
    → ((i : ℕ) → i < n → f i ≡ [])
      ⊎ ((i : ℕ) × (i < n) × (c : Call) × (cs : List Call) × (f i ≡ c ∷ cs))
busy_or_done zero f = inl (λ i l. absurd (omega arith))
busy_or_done (suc k) f = elim (next_of (f k)) [
  | inr (c, cs, e) ↦ inr (k, omega arith, c, cs, e)
  | inl none_here ↦ elim (busy_or_done k f) [
    | inr (i, l, c, cs, e) ↦ inr (i, omega arith, c, cs, e)
    | inl none_below ↦ inl (λ i l. elim (Bool-cases (i == k)) [
      | inl same ↦ let p = (==_iff i k).0 same in rw p none_here
      | inr differ ↦ none_below i (ground arith)
    ])
  ]
]

abbrev pub IsDone : ℕ → Cluster → Type 0
IsDone n t = (i : ℕ) → i < n → t.left i ≡ []

total_none : (n : ℕ) (f : ℕ → List Call) → ((i : ℕ) → i < n → f i ≡ []) → total n f ≡ 0
total_none zero f h = refl
total_none (suc k) f h =
    let here = h k (omega arith) in
    let rest = total_none k f (λ i l. h i (omega arith)) in
    let none_here : length (f k) ≡ 0 = rw here refl in omega arith

total_some :
    (n : ℕ) (f : ℕ → List Call) (i : ℕ) (c : Call) (cs : List Call)
    → i < n
    → f i ≡ c ∷ cs
    → total n f ≢ 0
total_some n f i c cs l e z = let p = total-put n i f c cs l e in omega arith

run_on :
    {blocks : Bool} {n : ℕ} (k : ℕ) {s : Cluster}
    → Reach blocks n s
    → total n s.left ≡ k
    → (t : Cluster) × Reach blocks n t × Steps blocks n k s t × IsDone n t
run_on {n = n} zero {s = s} r e = elim (busy_or_done n s.left) [
  | inl all_done ↦ (s, r, done, all_done)
  | inr (i, l, c, cs, p) ↦ absurd (total_some n s.left i c cs l p e)
]
run_on {n = n} (suc k) {s = s} r e = elim (busy_or_done n s.left) [
  | inl all_done ↦ absurd (let z = total_none n s.left all_done in omega arith)
  | inr (i, l, c, cs, p) ↦
      let (t, st) = Reach-progress r i c cs l p in
      let d = total-Step st in
      let (u, ru, ss, fin) = run_on k (later r st) (omega arith) in (u, ru, more st ss, fin)
]

-- The set-up comes to its end: from every state that an interleaving of the nodes of a cluster of `n`
-- reaches, whether or not a fetch waits for its key, no schedule makes more steps than the nodes have calls left, and some schedule makes that
-- many and leaves no node with a call to make.
pub Reach-finishes :
    {blocks : Bool} {n : ℕ} {s : Cluster}
    → Reach blocks n s
    → ((k : ℕ) (t : Cluster) → Steps blocks n k s t → k ≤ total n s.left)
      × ((t : Cluster) × Reach blocks n t × Steps blocks n (total n s.left) s t × IsDone n t)
Reach-finishes {n = n} {s = s} r =
    (λ k t ss. let p = total-Steps ss in omega arith, run_on (total n s.left) r refl)

append_nil : (xs : List Call) → xs ++ [] ≡ xs
append_nil [] = refl
append_nil (x ∷ xs) = ap (λ (t : List Call). x ∷ t) (append_nil xs)

-- A node that has no call left has made all calls of its trace.
pub IsDone-called :
    {blocks : Bool} {n : ℕ} {s : Cluster}
    → Reach blocks n s
    → IsDone n s
    → (i : ℕ) → i < n
    → s.called i ≡ calls_of n i
IsDone-called {n = n} {s = s} r d i l =
    sym (append_nil (s.called i))
    ∙ ap (λ (t : List Call). s.called i ++ t) (sym (d i l))
    ∙ (Reach-Inv r).parts i
