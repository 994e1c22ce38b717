-- ===== src/Replicator/Frame.antt =====
-- What the table does not see: any change that leaves `next` and `hashv` of the registered entries and
-- `next` of the heads as they are.
use scot.Base.{ℕ, ◌%◌, ◌≡◌, ◌<◌, ◌∙◌, sym, ap, true, List, [], ◌∷◌, arith}
use scot.Entry.{Heap}
use scot.Lfmap.Chain.{Cell, has, Chain}
use scot.Replicator.Latest.{Leads, here, next}
use scot.Replicator.Table.{among, head_of, IsTable}

abbrev pub Same : Heap → Heap → ℕ → Type 0
Same h g a = ((g a).next ≡ (h a).next) × ((g a).hashv ≡ (h a).hashv)

Chain-Same :
    (h g : Heap) (stop : ℕ) (cs : List Cell)
    → ((a : ℕ) → has a cs ≡ true → Same h g a)
    → Chain h stop cs
    → Chain g stop cs
Chain-Same h g stop [] same c = tt
Chain-Same h g stop ((a, j, dead) ∷ cs) same c =
    let s = same a (ground arith) in
    (c.0, c.1, s.1 ∙ c.2, s.0 ∙ c.3, c.4, Chain-Same h g stop cs (λ b e. same b (ground arith)) c.5)

Leads-Same :
    (h g : Heap) (P : ℕ → Type 0) {b n a : ℕ}
    → ((x : ℕ) → P x → Same h g x)
    → Leads h P b n a
    → Leads g P b n a
Leads-Same h g P {b} same (here p u) = here p (rw (same b p).0 u)
Leads-Same h g P same (next {a} r p q u w l) =
    next r p ((same a p).0 ∙ q) u ((same r (Leads-first h P l)).1 ∙ w ∙ sym (same a p).1)
      (Leads-Same h g P same l)
  where
    Leads-first : (h : Heap) (P : ℕ → Type 0) {b n a : ℕ} → Leads h P b n a → P a
    Leads-first h P (here p u) = p
    Leads-first h P (next r p q u w l) = p

pub IsTable-Same :
    (nelem bucket : ℕ) (h g : Heap) (cells : ℕ → List Cell) (reg : List ℕ)
    → ((a : ℕ) → among a reg ≡ true → Same h g a)
    → ((i : ℕ) → i < nelem → (g (head_of nelem bucket i)).next ≡ (h (head_of nelem bucket i)).next)
    → IsTable nelem bucket h cells reg
    → IsTable nelem bucket g cells reg
IsTable-Same nelem bucket h g cells reg same head t = record {
  some_lists = t.some_lists;
  lists = λ i lt.
      let b = t.lists i lt in
      record {
        aligned = b.aligned;
        head = head i lt ∙ b.head;
        chain = Chain-Same h g _ (cells i) (λ a e. same a (t.placed i a lt e).1) b.chain;
        sorted = b.sorted;
      };
  placed = λ i a lt e.
      let p = t.placed i a lt e in (ap (λ (x : ℕ). x % nelem) (same a p.1).1 ∙ p.0, p.1);
  heads = t.heads;
  short = t.short;
  newest = λ a e.
      let n = t.newest a e in
      record {
        entry = n.entry;
        steps = n.steps;
        has_entry = rw (same a e).1 n.has_entry;
        chain = Leads-Same h g _ same n.chain;
        few = n.few;
      };
}
