-- ===== src/Lfmap/Upsert.antt =====
-- The cells after an insertion or a replacement, and what `find` finds in them.
use scot.Base.{
  ℕ, ◌+◌, ◌≡◌, ◌≤◌, ◌<◌, refl, sym, ◌∙◌, inl, inr, true, false, Option, none, some, List, [], ◌∷◌,
  ◌++◌, arith, ◌==◌, ltb, if◌then◌else◌, Bool-cases, Option-cases,
}
use scot.Lfmap.Chain.{
  Cell, IsSorted, find, rest, kept, keep_dead, find-dead, find-less, find-none_lt, find-within,
  find-some_lt, find-nil,
}

-- The new cell where the search ended.
abbrev pub insert : ℕ → ℕ → List Cell → List Cell
insert k new cs = kept k cs ++ (new, k, false) ∷ rest k cs

-- The first entry with hash value `k` that is not deleted becomes deleted, and leads to the new cell.
unfoldable pub swap : ℕ → ℕ → List Cell → List Cell
swap k new [] = []
swap k new ((a, j, true) ∷ cs) = (a, j, true) ∷ swap k new cs
swap k new ((a, j, false) ∷ cs) =
    if j == k then (a, j, true) ∷ (new, k, false) ∷ cs else (a, j, false) ∷ swap k new cs

abbrev pub upsert_at : Option ℕ → ℕ → ℕ → List Cell → List Cell
upsert_at none k new cs = insert k new cs
upsert_at (some q) k new cs = swap k new cs

unfoldable pub upsert : ℕ → ℕ → List Cell → List Cell
upsert k new cs = upsert_at (find k cs) k new cs

-- Below the bound of a sorted list nothing is found.
pub find_below : (j low : ℕ) (cs : List Cell) → IsSorted low cs → j < low → find j cs ≡ none
unfolding find
find_below j low [] s h = refl
find_below j low ((a, i, true) ∷ cs) s h = let t : ltb j i ≡ true = ground arith in rw t
find_below j low ((a, i, false) ∷ cs) s h = let t : ltb j i ≡ true = ground arith in rw t

find-keep_dead :
    (j a i : ℕ) (ds es : List Cell)
    → (j < i → find j (ds ++ es) ≡ none)
    → find j (keep_dead (a, i, true) ds ++ es) ≡ find j (ds ++ es)
unfolding find keep_dead
find-keep_dead j a i [] es h = refl
find-keep_dead j a i (d ∷ ds) es h = elim (Bool-cases (ltb j i)) [
  | inl below ↦ rw below (sym (h (ground arith)))
  | inr above ↦ rw above
]

IsSorted-weaken : (low m : ℕ) (cs : List Cell) → low ≤ m → IsSorted m cs → IsSorted low cs
IsSorted-weaken low m [] h s = tt
IsSorted-weaken low m ((a, i, true) ∷ cs) h s = (omega arith, s.1)
IsSorted-weaken low m ((a, i, false) ∷ cs) h s = (omega arith, s.1)

IsSorted-keep_dead :
    (low a i : ℕ) (ds es : List Cell)
    → low ≤ i
    → IsSorted i (ds ++ es)
    → IsSorted low (keep_dead (a, i, true) ds ++ es)
unfolding keep_dead
IsSorted-keep_dead low a i [] es h s = IsSorted-weaken low i es h s
IsSorted-keep_dead low a i (d ∷ ds) es h s = (h, s)

module _ (k new : ℕ) where
  -- Inserting a cell keeps the order.
  pub IsSorted-insert :
      (low : ℕ) (cs : List Cell)
      → low ≤ k
      → find k cs ≡ none
      → IsSorted low cs
      → IsSorted low (insert k new cs)
  unfolding kept rest
  IsSorted-insert low [] le e s = (le, tt)
  IsSorted-insert low ((a, i, true) ∷ cs) le e s = elim (Bool-cases (ltb k i)) [
    | inl beyond ↦ rw beyond (le, (ground arith, s.1))
    | inr within ↦ rw within (
        IsSorted-keep_dead low a i (kept k cs) ((new, k, false) ∷ rest k cs) s.0
          (IsSorted-insert i cs (ground arith) (sym (find-dead k a i cs within) ∙ e) s.1))
  ]
  IsSorted-insert low ((a, i, false) ∷ cs) le e s = elim (Bool-cases (ltb k i)) [
    | inl beyond ↦ rw beyond (le, (ground arith, s.1))
    | inr within ↦ rw within (
        let less = find-none_lt k a i cs e within in
        (s.0, IsSorted-insert (i + 1) cs (omega arith) (sym (find-less k a i cs less) ∙ e) s.1))
  ]

  -- The inserted cell is found, and everything else as before.
  pub find-insert :
      (j low : ℕ) (cs : List Cell)
      → find k cs ≡ none
      → IsSorted low cs
      → find j (insert k new cs) ≡ (if j == k then some new else find j cs)
  unfolding kept rest find
  find-insert j low [] e s = ground arith
  find-insert j low ((a, i, true) ∷ cs) e s = elim (Bool-cases (ltb k i)) [
    | inl beyond ↦ rw beyond (ground arith)
    | inr within ↦ rw within (
        let none_here = sym (find-dead k a i cs within) ∙ e in
        let sorted = IsSorted-insert i cs (ground arith) none_here s.1 in
        find-keep_dead j a i (kept k cs) ((new, k, false) ∷ rest k cs) (find_below j i _ sorted)
        ∙ find-insert j i cs none_here s.1
        ∙ ground (arith, find_below j i cs s.1))
  ]
  find-insert j low ((a, i, false) ∷ cs) e s = elim (Bool-cases (ltb k i)) [
    | inl beyond ↦ rw beyond (ground arith)
    | inr within ↦
        let less = find-none_lt k a i cs e within in
        rw within (ground (arith, find-insert j (i + 1) cs (sym (find-less k a i cs less) ∙ e) s.1))
  ]

  -- Replacing a cell keeps the order.
  pub IsSorted-swap :
      (low q : ℕ) (cs : List Cell)
      → find k cs ≡ some q
      → IsSorted low cs
      → IsSorted low (swap k new cs)
  unfolding swap
  IsSorted-swap low q [] e s = tt
  IsSorted-swap low q ((a, i, true) ∷ cs) e s =
      let within = find-within k a i true cs q e in
      (s.0, IsSorted-swap i q cs (sym (find-dead k a i cs within) ∙ e) s.1)
  IsSorted-swap low q ((a, i, false) ∷ cs) e s = elim (Bool-cases (i == k)) [
    | inl same ↦
        let eq : i ≡ k = ground arith in
        rw same (s.0, (omega arith, IsSorted-weaken (k + 1) (i + 1) cs (omega arith) s.1))
    | inr differ ↦
        let less = find-some_lt k a i cs q e differ in
        rw differ (s.0, IsSorted-swap (i + 1) q cs (sym (find-less k a i cs less) ∙ e) s.1)
  ]

  -- The replacing cell is found, and everything else as before.
  pub find-swap :
      (j low q : ℕ) (cs : List Cell)
      → find k cs ≡ some q
      → IsSorted low cs
      → find j (swap k new cs) ≡ (if j == k then some new else find j cs)
  unfolding swap find
  find-swap j low q [] e s = absurd (find-nil k q e)
  find-swap j low q ((a, i, true) ∷ cs) e s =
      let within = find-within k a i true cs q e in
      let ih = find-swap j i q cs (sym (find-dead k a i cs within) ∙ e) s.1 in ground (arith, ih)
  find-swap j low q ((a, i, false) ∷ cs) e s = elim (Bool-cases (i == k)) [
    | inl same ↦ rw same (ground arith)
    | inr differ ↦
        let less = find-some_lt k a i cs q e differ in
        let ih = find-swap j (i + 1) q cs (sym (find-less k a i cs less) ∙ e) s.1 in
        rw differ (ground (arith, ih))
  ]

  -- `upsert` on a sorted list is the update of a map.
  pub find-upsert :
      (j low : ℕ) (cs : List Cell)
      → IsSorted low cs
      → find j (upsert k new cs) ≡ (if j == k then some new else find j cs)
  unfolding upsert
  find-upsert j low cs s = elim (Option-cases (find k cs)) [
    | inl e ↦ rw (e, upsert_at) (find-insert j low cs e s)
    | inr (q, e) ↦ rw (e, upsert_at) (find-swap j low q cs e s)
  ]

  pub IsSorted-upsert :
      (low : ℕ) (cs : List Cell) → low ≤ k → IsSorted low cs → IsSorted low (upsert k new cs)
  unfolding upsert
  IsSorted-upsert low cs le s = elim (Option-cases (find k cs)) [
    | inl e ↦ rw (e, upsert_at) (IsSorted-insert low cs le e s)
    | inr (q, e) ↦ rw (e, upsert_at) (IsSorted-swap low q cs e s)
  ]
