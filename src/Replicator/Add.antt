-- ===== src/Replicator/Add.antt =====
-- `__ht_try_insert` on the whole table: every registered entry still leads to the newest one.
use scot.Base.{
  ℕ, suc, ◌%◌, ◌≡◌, ◌≢◌, ◌≤◌, ◌<◌, ◌⊎◌, refl, sym, ap, ◌∙◌, inl, inr, Bool, true, false, some, List,
  ◌∷◌, length, arith, ◌==◌, ==_iff, if◌then◌else◌, Bool-cases, false_of_not, absurd_both, ne_of,
}
use scot.Entry.{Heap}
use scot.Lfmap.Chain.{Cell, has, find}
use scot.Lfmap.Upsert.{upsert, find-upsert}
use scot.Lfmap.Rewire.{OnlyNext, OnlyNext-hash, Chain-frame}
use scot.Lfmap.Bucket.{IsBucket, IsFresh, Update, Update-IsBucket, Update-frame, Update-OnlyNext}
use scot.Lfmap.Find.{hash_table}
use scot.Replicator.{ht_try_insert, ht_get_latest_entry}
use scot.Replicator.TryInsert.{round-succeeds}
use scot.Replicator.Latest.{Leads-hash, Reaches, ht_get_latest_entry-Leads}
use scot.Replicator.Transfer.{Leads-Update, Leads-new}
use scot.Replicator.Table.{
  among, head_of, Newest, IsTable, get_bucket_lem, head-injective, length-upsert, has-upsert_cases,
}

-- A slot that is not in the table, nor the head of a list.
pub record IsUnused (nelem bucket : ℕ) (reg : List ℕ) (new : ℕ) : Type 0 where
  pub aligned : new % 4 ≡ 0
  pub unused : among new reg ≡ false
  pub apart : (i : ℕ) → i < nelem → new ≢ head_of nelem bucket i

-- The cells of every list after the entry `new` with hash value `k` was added to list `idx`.
abbrev pub cells_after : ℕ → ℕ → ℕ → (ℕ → List Cell) → ℕ → List Cell
cells_after idx k new cells i = if i == idx then upsert k new (cells i) else cells i

some_if : (b : Bool) (x y : ℕ) → (if b then some x else some y) ≡ some (if b then x else y)
some_if true x y = refl
some_if false x y = refl

module _ (nelem bucket : ℕ) (h : Heap) (cells : ℕ → List Cell) (reg : List ℕ) (new : ℕ)
    (t : IsTable nelem bucket h cells reg) (u : IsUnused nelem bucket reg new) where
  abbrev k : ℕ
  k = (h new).hashv

  abbrev idx : ℕ
  idx = k % nelem

  abbrev list : ℕ
  list = head_of nelem bucket idx

  idx_lt : idx < nelem
  idx_lt = let pos = t.some_lists in omega arith

  among_ne : (a : ℕ) → among a reg ≡ true → a ≢ new
  among_ne a e p = absurd_both (ap (λ (x : ℕ). among x reg) (sym p) ∙ e) u.unused

  cell_among : (i a : ℕ) → i < nelem → has a (cells i) ≡ true → among a reg ≡ true
  cell_among i a lt e = (t.placed i a lt e).1

  IsBucket-here : IsBucket h list (cells idx)
  IsBucket-here = t.lists idx idx_lt

  IsFresh-here : IsFresh h list k new (cells idx)
  IsFresh-here = record {
    aligned = u.aligned;
    ne_head = u.apart idx idx_lt;
    hash = refl;
    unused = false_of_not _ (λ inside. among_ne new (cell_among idx new idx_lt inside) refl);
  }

  module _ (g : Heap) (update : Update h g list k new (cells idx)) where
    hash_kept : (a : ℕ) → (g a).hashv ≡ (h a).hashv
    hash_kept =
        OnlyNext-hash h g
          (Update-OnlyNext h g list k new (cells idx) IsBucket-here IsFresh-here update)

    elsewhere : (a : ℕ) → a ≢ list → a ≢ new → has a (cells idx) ≡ false → g a ≡ h a
    elsewhere = Update-frame h g list k new (cells idx) IsBucket-here IsFresh-here update

    head_out :
        (i : ℕ) → i < nelem → (j : ℕ) → j < nelem → has (head_of nelem bucket i) (cells j) ≡ false
    head_out i lt j lt_j =
        false_of_not _ (λ inside. absurd_both (cell_among j _ lt_j inside) (t.heads i lt))

    other_cell : (i : ℕ) → i < nelem → i ≢ idx → (a : ℕ) → has a (cells i) ≡ true → g a ≡ h a
    other_cell i lt ne a e =
        let ours = cell_among i a lt e in
        elsewhere a
          (λ p. absurd_both (ap (λ (x : ℕ). among x reg) (sym p) ∙ ours) (t.heads idx idx_lt))
          (among_ne a ours)
          (false_of_not _
            (λ inside. ne (sym (t.placed i a lt e).0 ∙ (t.placed idx a idx_lt inside).0)))

    -- The other lists are untouched.
    other_list : (i : ℕ) → i < nelem → i ≢ idx → IsBucket g (head_of nelem bucket i) (cells i)
    other_list i lt ne =
        let b = t.lists i lt in
        let top : g (head_of nelem bucket i) ≡ h (head_of nelem bucket i) =
          elsewhere _ (λ e. ne (head-injective nelem bucket i idx e)) (λ e. u.apart i lt (sym e))
            (head_out i lt idx idx_lt) in
        record {
          aligned = b.aligned;
          head = rw top b.head;
          chain = Chain-frame h g _ (cells i) (other_cell i lt ne) b.chain;
          sorted = b.sorted;
        }

    abbrev after : ℕ → List Cell
    after = cells_after idx k new cells

    IsBucket-idx : IsBucket g list (after idx)
    IsBucket-idx =
        rw ((==_iff idx idx).1 refl)
          (Update-IsBucket h g list k new (cells idx) IsBucket-here IsFresh-here update)

    lists_after : (i : ℕ) → i < nelem → IsBucket g (head_of nelem bucket i) (after i)
    lists_after i lt = elim (Bool-cases (i == idx)) [
      | inl same ↦ let e = (==_iff i idx).0 same in rw e IsBucket-idx
      | inr differ ↦ rw differ (other_list i lt (ne_of i idx differ))
    ]

    cell_after :
        (i a : ℕ) → has a (after i) ≡ true → (a ≡ new) × (i ≡ idx) ⊎ (has a (cells i) ≡ true)
    cell_after i a e = elim (Bool-cases (i == idx)) [
      | inl same ↦ elim (has-upsert_cases k new a (cells i) (rw same at e)) [
        | inl added ↦ inl (added, (==_iff i idx).0 same)
        | inr old ↦ inr old
      ]
      | inr differ ↦ inr (rw differ at e)
    ]

    placed_after :
        (i a : ℕ)
        → i < nelem
        → has a (after i) ≡ true
        → ((g a).hashv % nelem ≡ i) × (among a (new ∷ reg) ≡ true)
    placed_after i a lt e = elim (cell_after i a e) [
      | inl (added, here) ↦ (rw (hash_kept a, added, here) refl, rw added (ground arith))
      | inr old ↦ (rw (hash_kept a) (t.placed i a lt old).0, ground (arith, cell_among i a lt old))
    ]

    find-after :
        (j : ℕ)
        → find j (after (j % nelem)) ≡ (if j == k then some new else find j (cells (j % nelem)))
    find-after j = elim (Bool-cases (j % nelem == idx)) [
      | inl same ↦ rw same (
          find-upsert k new j 0 (cells (j % nelem))
            (t.lists (j % nelem) (let pos = t.some_lists in omega arith)).sorted)
      | inr differ ↦
          let other : (j == k) ≡ false =
            false_of_not _ (λ e. ne_of _ _ differ (ap (λ (x : ℕ). x % nelem) ((==_iff j k).0 e))) in
          rw (differ, other)
    ]

    abbrev Now : ℕ → Type 0
    Now a = among a (new ∷ reg) ≡ true

    known : (a : ℕ) → among a reg ≡ true → (a ≢ new) × Now a
    known a e = (among_ne a e, ground arith)

    new-Now : Now new
    new-Now = ground arith

    Newest-new : Newest g (find (g new).hashv (after ((g new).hashv % nelem))) (new ∷ reg) new
    Newest-new = record {
      entry = new;
      steps = 0;
      has_entry = rw (hash_kept new) (find-after k ∙ rw ((==_iff k k).1 refl));
      chain =
          Leads-new h g list k new (cells idx) (λ a. among a reg ≡ true) Now IsBucket-here
            IsFresh-here known new-Now update;
      few = omega arith;
    }

    Newest-old :
        (a : ℕ)
        → among a reg ≡ true
        → Newest g (find (g a).hashv (after ((g a).hashv % nelem))) (new ∷ reg) a
    Newest-old a e =
        let j = (h a).hashv in
        let n = t.newest a e in
        let here_if : j ≡ k → find k (cells idx) ≡ some n.entry =
          λ p. ap (λ (x : ℕ). find x (cells (x % nelem))) (sym p) ∙ n.has_entry in
        let (steps, few, chain) =
          Leads-Update h g list k new (cells idx) (λ a. among a reg ≡ true) Now IsBucket-here
            IsFresh-here known new-Now j update (Leads-hash h _ n.chain) here_if n.chain in
        record {
          entry = if j == k then new else n.entry;
          steps = steps;
          has_entry = rw (hash_kept a, find-after j, n.has_entry) (some_if (j == k) new n.entry);
          chain = chain;
          few = omega (arith, n.few);
        }

    short_after : (i : ℕ) → i < nelem → length (after i) ≤ suc (length reg)
    short_after i lt = elim (Bool-cases (i == idx)) [
      | inl same ↦ rw same (omega (arith, length-upsert k new (cells i), t.short i lt))
      | inr differ ↦ rw differ (omega (arith, t.short i lt))
    ]

    table_after : IsTable nelem bucket g after (new ∷ reg)
    table_after = record {
      some_lists = t.some_lists;
      lists = lists_after;
      placed = placed_after;
      heads = λ i lt. ground (arith, t.heads i lt, u.apart i lt);
      short = short_after;
      newest = λ a e. elim (Bool-cases (a == new)) [
        | inl same ↦ let p = (==_iff a new).0 same in rw p Newest-new
        | inr differ ↦ Newest-old a (ground arith)
      ];
    }

  -- On a table that holds its invariant, with fuel for as many entries as are registered,
  -- `__ht_try_insert` of an unused slot returns after one round; the slot is registered, the
  -- invariant holds again, and nothing but references changed.
  pub ht_try_insert-IsTable :
      (rounds fuel : ℕ)
      → length reg ≤ fuel
      → (g : Heap) × (ht_try_insert (hash_table nelem bucket) (suc rounds) (suc fuel) h new
          ≡ some g)
        × IsTable nelem bucket g (cells_after idx k new cells) (new ∷ reg)
        × OnlyNext h g
  unfolding ht_try_insert
  ht_try_insert-IsTable rounds fuel enough =
      let e = get_bucket_lem nelem bucket k t.some_lists in
      let (g, (done, update)) =
        round-succeeds nelem bucket fuel h new (cells idx) (rw e IsBucket-here) (rw e IsFresh-here)
          (omega (arith, t.short idx idx_lt)) in
      let update' : Update h g list k new (cells idx) = rw e at update in
      (
        g,
        rw done,
        table_after g update',
        Update-OnlyNext h g list k new (cells idx) IsBucket-here IsFresh-here update',
      )

-- What the table promises its client: on a table that holds its invariant, with fuel for as many rounds
-- as entries are registered, from any registered entry `__ht_get_latest_entry` returns the
-- entry that the table finds for its hash value, with its fields untouched; an entry that was
-- superseded is no longer ready. Its assertion cannot fail.
pub ht_get_latest_entry-IsTable :
    (nelem bucket : ℕ) (h : Heap) (cells : ℕ → List Cell) (reg : List ℕ) (a fuel : ℕ)
    → IsTable nelem bucket h cells reg
    → among a reg ≡ true
    → length reg ≤ fuel
    → (b : ℕ) × (g : Heap) × (find (h a).hashv (cells ((h a).hashv % nelem)) ≡ some b)
      × (ht_get_latest_entry fuel h a ≡ some (b, g))
      × Reaches h b a g
ht_get_latest_entry-IsTable nelem bucket h cells reg a fuel t e enough =
    let n = t.newest a e in
    let (g, done, reach) =
      ht_get_latest_entry-Leads _ n.entry fuel n.steps a h n.chain (omega (arith, n.few)) in
    (n.entry, g, n.has_entry, done, reach)
