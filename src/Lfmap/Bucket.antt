-- ===== src/Lfmap/Bucket.antt =====
-- A list of the table as a sorted map from hash values to entries.
use scot.Base.{
  ℕ, ◌+◌, ◌%◌, ◌≡◌, ◌≢◌, refl, sym, ◌∙◌, inl, inr, true, false, none, some, List, [], ◌∷◌, arith,
  ltb, Bool-cases,
}
use scot.Entry.{Heap}
use scot.Lfmap.Chain.{Cell, has, start, Chain, IsSorted, find, last, rest}
use scot.Lfmap.Upsert.{upsert, upsert_at, IsSorted-insert, IsSorted-swap}
use scot.Lfmap.Rewire.{
  Rewired, OnlyNext, next-insert, Chain-insert, Chain-swap, start-swap, has-find, has_ne,
  has-last_of_live,
}
use scot.Mark.{get_unmarked_reference}
use scot.Lfmap.Search.{start_aligned}

-- The list at a head holds these cells.
pub record IsBucket (h : Heap) (list : ℕ) (cs : List Cell) : Type 0 where
  pub aligned : list % 4 ≡ 0
  pub head : (h list).next ≡ start list cs
  pub chain : Chain h list cs
  pub sorted : IsSorted 0 cs

-- An entry that is about to be added with hash value `k`.
pub record IsFresh (h : Heap) (list k new : ℕ) (cs : List Cell) : Type 0 where
  pub aligned : new % 4 ≡ 0
  pub ne_head : new ≢ list
  pub hash : (h new).hashv ≡ k
  pub unused : has new cs ≡ false

-- What an insertion or a replacement rewires.
pub data Update (h g : Heap) (list k new : ℕ) (cs : List Cell) : Type 0 where
  inserted :
      find k cs ≡ none
      → Rewired h g (last k list cs) new new (start list (rest k cs))
      → Update h g list k new cs
  replaced :
      (q : ℕ)
      → find k cs ≡ some q
      → Rewired h g q new (new + 1) (get_unmarked_reference (h q).next)
      → Update h g list k new cs

pub Chain-has_stop : (h : Heap) (stop : ℕ) (cs : List Cell) → Chain h stop cs → has stop cs ≡ false
Chain-has_stop h stop [] c = refl
Chain-has_stop h stop ((a, j, dead) ∷ cs) c = ground (arith, Chain-has_stop h stop cs c.5)

module _ (h : Heap) (stop : ℕ) (k : ℕ) where
  pub Chain-rest : (cs : List Cell) → Chain h stop cs → Chain h stop (rest k cs)
  unfolding rest
  Chain-rest [] c = c
  Chain-rest ((a, j, dead) ∷ cs) c = elim (Bool-cases (ltb k j)) [
    | inl beyond ↦ rw beyond c
    | inr within ↦ rw within (Chain-rest cs c.5)
  ]

  -- The entry behind which a search ends carries no mark.
  pub last_unmarked :
      (p : ℕ) (cs : List Cell)
      → stop % 4 ≡ 0
      → Chain h stop cs
      → (h p).next % 4 ≡ 0
      → (h (last k p cs)).next % 4 ≡ 0
  unfolding last
  last_unmarked p [] s c e = e
  last_unmarked p ((a, j, true) ∷ cs) s c e = elim (Bool-cases (ltb k j)) [
    | inl beyond ↦ rw beyond e
    | inr within ↦ rw within (last_unmarked p cs s c.5 e)
  ]
  last_unmarked p ((a, j, false) ∷ cs) s c e = elim (Bool-cases (ltb k j)) [
    | inl beyond ↦ rw beyond e
    | inr within ↦
        rw within (last_unmarked a cs s c.5 (omega (arith, c.3, start_aligned h stop cs s c.5)))
  ]

module _ (h g : Heap) (list k new : ℕ) (cs : List Cell) (b : IsBucket h list cs)
    (f : IsFresh h list k new cs) where
  -- After either update the list holds the updated map.
  pub Update-IsBucket : Update h g list k new cs → IsBucket g list (upsert k new cs)
  unfolding upsert
  Update-IsBucket (inserted e w) =
      rw (e, upsert_at)
        (record {
          aligned = b.aligned;
          head =
              next-insert h g list k new f.aligned f.ne_head f.hash list cs (λ q. f.ne_head (sym q))
                out f.unused w b.head;
          chain =
              Chain-insert h g list k new f.aligned f.ne_head f.hash list cs b.chain e
                (λ q. f.ne_head (sym q)) out f.unused w;
          sorted = IsSorted-insert k new 0 cs (omega arith) e b.sorted;
        })
    where
      out : has list cs ≡ false
      out = Chain-has_stop h list cs b.chain
  Update-IsBucket (replaced q e w) =
      rw (e, upsert_at)
        (record {
          aligned = b.aligned;
          head =
              rw
                (
                  w.same list (λ p. has_ne list q cs out (has-find k q cs e) (sym p))
                      (λ p. f.ne_head (sym p)),
                  start-swap list k new cs,
                )
                b.head;
          chain =
              Chain-swap h g list k new f.aligned f.ne_head f.hash q cs b.aligned b.chain e f.unused
                w;
          sorted = IsSorted-swap k new 0 q cs e b.sorted;
        })
    where
      out : has list cs ≡ false
      out = Chain-has_stop h list cs b.chain

  -- Entries that are neither in the list nor added to it keep all that they hold.
  pub Update-frame :
      Update h g list k new cs → (a : ℕ) → a ≢ list → a ≢ new → has a cs ≡ false → g a ≡ h a
  Update-frame (inserted e w) a ne_list ne_new out =
      w.same a
        (λ p. elim (has-last_of_live k list cs) [
          | inl top ↦ ne_list (p ∙ top)
          | inr inside ↦ has_ne a (last k list cs) cs out inside (sym p)
        ])
        ne_new
  Update-frame (replaced q e w) a ne_list ne_new out =
      w.same a (λ p. has_ne a q cs out (has-find k q cs e) (sym p)) ne_new

  -- Only references change.
  pub Update-OnlyNext : Update h g list k new cs → OnlyNext h g
  Update-OnlyNext (inserted e w) = w.fields
  Update-OnlyNext (replaced q e w) = w.fields
