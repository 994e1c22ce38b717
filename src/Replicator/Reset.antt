-- ===== src/Replicator/Reset.antt =====
-- `LockfreeMap::reset`: every list is empty again, and nothing is registered.
use scot.Base.{
  ℕ, zero, suc, ◌+◌, ◌-◌, ◌%◌, ◌≡◌, ◌≢◌, ◌≤◌, ◌<◌, ◌⊎◌, refl, ◌∙◌, inl, inr, Bool-cases, ne_of,
  ==_iff, ◌==◌, [], arith,
}
use scot.Entry.{Heap}
use scot.Lfmap.{reset, init_loop, list_init, get_bucket_by_idx}
use scot.Lfmap.Update.{set_next_self, set_next_ne}
use scot.Lfmap.Find.{hash_table}
use scot.Replicator.Table.{IsTable, head_of, head-injective}

list_init_self : (h : Heap) (p : ℕ) → (list_init h p p).next ≡ p
unfolding list_init
list_init_self h p = set_next_self h p p

list_init_ne : (h : Heap) (p a : ℕ) → a ≢ p → list_init h p a ≡ h a
unfolding list_init
list_init_ne h p a ne = set_next_ne h p p a ne

module _ (nelem bucket : ℕ) where
  init_head :
      (k : ℕ) (h : Heap) (i : ℕ)
      → k ≤ nelem
      → i < nelem
      → (nelem ≤ i + k) ⊎ ((h (head_of nelem bucket i)).next ≡ head_of nelem bucket i)
      → (init_loop (hash_table nelem bucket) k h (head_of nelem bucket i)).next
        ≡ head_of nelem bucket i
  unfolding init_loop
  init_head zero h i le lt (inl beyond) = absurd (omega arith)
  init_head zero h i le lt (inr done) = done
  init_head (suc k) h i le lt s =
      init_head k _ i (omega arith) lt (elim (Bool-cases (i == nelem - suc k)) [
        | inl same ↦
            let e = (==_iff i (nelem - suc k)).0 same in
            inr (rw (← e) (list_init_self h (head_of nelem bucket i)))
        | inr differ ↦ later s (ne_of _ _ differ)
      ])
    where
      later :
          (nelem ≤ i + suc k) ⊎ ((h (head_of nelem bucket i)).next ≡ head_of nelem bucket i)
          → i ≢ nelem - suc k
          → (nelem ≤ i + k)
            ⊎ ((list_init h (head_of nelem bucket (nelem - suc k)) (head_of nelem bucket i)).next
                ≡ head_of nelem bucket i)
      later (inl near) ne = inl (omega arith)
      later (inr done) ne = inr (
          rw
            (list_init_ne h (head_of nelem bucket (nelem - suc k)) (head_of nelem bucket i)
              (λ e. ne (head-injective nelem bucket i _ e)))
            done)

  init_frame :
      (k : ℕ) (h : Heap) (a : ℕ)
      → k ≤ nelem
      → ((i : ℕ) → i < nelem → a ≢ head_of nelem bucket i)
      → init_loop (hash_table nelem bucket) k h a ≡ h a
  unfolding init_loop
  init_frame zero h a le apart = refl
  init_frame (suc k) h a le apart =
      init_frame k _ a (omega arith) apart
      ∙ list_init_ne h _ a (apart (nelem - suc k) (omega arith))

  -- After `reset` of a table with at least one list, at an aligned address, the table is empty, whatever it held, and only the heads were written.
  pub reset-IsTable :
      (h : Heap)
      → 0 < nelem
      → bucket % 4 ≡ 0
      → IsTable nelem bucket (reset (hash_table nelem bucket) h) (λ i. []) []
        × ((a : ℕ)
            → ((i : ℕ) → i < nelem → a ≢ head_of nelem bucket i)
            → reset (hash_table nelem bucket) h a ≡ h a)
  unfolding reset
  reset-IsTable h pos aligned = (
    record {
      some_lists = pos;
      lists = λ i lt. record {
        aligned = unfold get_bucket_by_idx in omega arith;
        head = init_head nelem h i (omega arith) lt (inl (omega arith));
        chain = tt;
        sorted = tt;
      };
      placed = λ i a lt e. cc;
      heads = λ i lt. refl;
      short = λ i lt. omega arith;
      newest = λ a e. cc;
    },
    λ a apart. init_frame nelem h a (omega arith) apart,
  )
