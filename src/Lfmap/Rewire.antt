-- ===== src/Lfmap/Rewire.antt =====
-- Two references change when an entry is inserted or replaced: the chain of cells that results.
mod Members
pub use Members.*
use scot.Base.{
  ℕ, ◌+◌, ◌%◌, ◌≡◌, ◌≢◌, ◌⊎◌, refl, sym, ap, ◌∙◌, inl, inr, Bool, true, false, none, some, List, [],
  ◌∷◌, ◌++◌, arith, ◌==◌, ltb, Bool-cases, List-cases,
}
use scot.Entry.{SlotEntry, Heap}
use scot.Lfmap.Chain.{
  Cell, has, start, Chain, find, last, rest, kept, keep_dead, find-dead, find-less, find-none_lt,
  find-within, find-some_lt, find-eq,
}
use scot.Mark.{get_unmarked_reference}
use scot.Lfmap.Upsert.{insert, swap}
use scot.Lfmap.Search.{get_unmarked-start}

-- Nothing but `next` differs.
abbrev pub OnlyNext : Heap → Heap → Type 0
OnlyNext h g = (a : ℕ) → g a ≡ record (h a) { next = (g a).next }

pub OnlyNext-hash : (h g : Heap) → OnlyNext h g → (a : ℕ) → (g a).hashv ≡ (h a).hashv
OnlyNext-hash h g e a = ap (λ (s : SlotEntry). s.hashv) (e a)

pub OnlyNext-trans : (h g k : Heap) → OnlyNext h g → OnlyNext g k → OnlyNext h k
OnlyNext-trans h g k d e a = e a ∙ ap (λ (s : SlotEntry). record s { next = (k a).next }) (d a)

-- From `h` to `g` the entry at `left` gets the reference `x` and the one at `new` gets `y`.
pub record Rewired (h g : Heap) (left new x y : ℕ) : Type 0 where
  pub left_next : (g left).next ≡ x
  pub new_next : (g new).next ≡ y
  pub fields : OnlyNext h g
  pub same : (a : ℕ) → a ≢ left → a ≢ new → g a ≡ h a

pub Chain-frame :
    (h g : Heap) (stop : ℕ) (cs : List Cell)
    → ((a : ℕ) → has a cs ≡ true → g a ≡ h a)
    → Chain h stop cs
    → Chain g stop cs
Chain-frame h g stop [] same c = tt
Chain-frame h g stop ((a, j, dead) ∷ cs) same c =
    let here : g a ≡ h a = same a (ground arith) in
    (
      c.0,
      c.1,
      rw here c.2,
      rw here c.3,
      c.4,
      Chain-frame h g stop cs (λ b e. same b (ground arith)) c.5,
    )

module _ (h g : Heap) (stop k new : ℕ) (aligned : new % 4 ≡ 0) (new_ne : new ≢ stop)
    (hash : (h new).hashv ≡ k) where
  -- The reference of the entry before the cells leads to the first of the cells that result.
  pub next-insert :
      (p : ℕ) (cs : List Cell)
      → p ≢ new
      → has p cs ≡ false
      → has new cs ≡ false
      → Rewired h g (last k p cs) new new (start stop (rest k cs))
      → (h p).next ≡ start stop cs
      → (g p).next ≡ start stop (insert k new cs)
  next-insert p cs ne out fresh w e = elim (List-cases (kept k cs)) [
    | inl nil ↦ rw nil (rw (last-eq_of_nil k p cs nil) at w.left_next)
    | inr (d, ds, more) ↦
        let same =
          w.same p (λ q. has_ne p (last k p cs) cs out (has-last k p cs d ds more) (sym q)) ne in
        rw (more, same) (e ∙ start-kept k stop cs d ds more)
  ]

  Chain-keep_dead :
      (p a j : ℕ) (cs : List Cell)
      → Chain h stop ((a, j, true) ∷ cs)
      → a ≢ new
      → Rewired h g (last k p cs) new new (start stop (rest k cs))
      → (ds : List Cell) → kept k cs ≡ ds
      → Chain g stop (ds ++ (new, k, false) ∷ rest k cs)
      → has a (ds ++ (new, k, false) ∷ rest k cs) ≡ false
      → Chain g stop (keep_dead (a, j, true) ds ++ (new, k, false) ∷ rest k cs)
  unfolding keep_dead
  Chain-keep_dead p a j cs c ne w [] e chain out = chain
  Chain-keep_dead p a j cs c ne w (d ∷ ds) e chain out =
      let same =
        w.same a (λ q. has_ne a (last k p cs) cs c.4 (has-last k p cs d ds e) (sym q)) ne in
      (
        c.0,
        c.1,
        rw same c.2,
        rw same (c.3 ∙ ap (λ t. t + 1) (start-kept k stop cs d ds e)),
        out,
        chain,
      )

  new_cell :
      (cs : List Cell) (left x : ℕ)
      → has new cs ≡ false
      → Rewired h g left new x (start stop cs)
      → Chain g stop cs
      → Chain g stop ((new, k, false) ∷ cs)
  new_cell cs left x out w c =
      (aligned, new_ne, OnlyNext-hash h g w.fields new ∙ hash, omega (arith, w.new_next), out, c)

  -- Cells that are neither `left` nor `new` keep what they hold.
  untouched :
      (cs : List Cell) (left x y : ℕ)
      → has left cs ≡ false
      → has new cs ≡ false
      → Rewired h g left new x y
      → Chain h stop cs
      → Chain g stop cs
  untouched cs left x y out fresh w c =
      Chain-frame h g stop cs (λ a e. w.same a (has_ne left a cs out e) (has_ne new a cs fresh e)) c

  pub Chain-insert :
      (p : ℕ) (cs : List Cell)
      → Chain h stop cs
      → find k cs ≡ none
      → p ≢ new
      → has p cs ≡ false
      → has new cs ≡ false
      → Rewired h g (last k p cs) new new (start stop (rest k cs))
      → Chain g stop (insert k new cs)
  unfolding kept rest last
  Chain-insert p [] c e ne out fresh w = new_cell [] p new refl w tt
  Chain-insert p ((a, j, true) ∷ cs) c e ne out fresh w = elim (Bool-cases (ltb k j)) [
    | inl beyond ↦
        let w' : Rewired h g p new new a = rw beyond at w in
        let all = (a, j, true) ∷ cs in
        rw beyond (new_cell all p new fresh w' (untouched all p new a out fresh w' c))
    | inr within ↦
        let w' : Rewired h g (last k p cs) new new (start stop (rest k cs)) = rw within at w in
        let ne_new : a ≢ new = ground arith in
        let out' : has p cs ≡ false = ground arith in
        let fresh' : has new cs ≡ false = ground arith in
        rw within (
          Chain-keep_dead p a j cs c ne_new w' (kept k cs) refl
            (Chain-insert p cs c.5 (sym (find-dead k a j cs within) ∙ e) ne out' fresh' w')
            (has-insert k a new cs ne_new c.4))
  ]
  Chain-insert p ((a, j, false) ∷ cs) c e ne out fresh w = elim (Bool-cases (ltb k j)) [
    | inl beyond ↦
        let w' : Rewired h g p new new a = rw beyond at w in
        let all = (a, j, false) ∷ cs in
        rw beyond (new_cell all p new fresh w' (untouched all p new a out fresh w' c))
    | inr within ↦
        let w' : Rewired h g (last k a cs) new new (start stop (rest k cs)) = rw within at w in
        let less = find-none_lt k a j cs e within in
        let ne_new : a ≢ new = ground arith in
        let fresh' : has new cs ≡ false = ground arith in
        rw within (
          c.0,
          c.1,
          OnlyNext-hash h g w.fields a ∙ c.2,
          omega (arith, next-insert a cs ne_new c.4 fresh' w' (omega (arith, c.3))),
          has-insert k a new cs ne_new c.4,
          Chain-insert a cs c.5 (sym (find-less k a j cs less) ∙ e) ne_new c.4 fresh' w',
        )
  ]

  -- A cell in front of the one that is replaced.
  before_swap :
      (q a j x y : ℕ) (dead : Bool) (cs : List Cell)
      → Chain h stop ((a, j, dead) ∷ cs)
      → a ≢ new
      → has q cs ≡ true
      → Rewired h g q new x y
      → Chain g stop (swap k new cs)
      → Chain g stop ((a, j, dead) ∷ swap k new cs)
  before_swap q a j x y dead cs c ne inside w chain =
      let same = w.same a (λ e. has_ne a q cs c.4 inside (sym e)) ne in
      (
        c.0,
        c.1,
        rw same c.2,
        rw (same, start-swap stop k new cs) c.3,
        has-swap k a new cs ne c.4,
        chain,
      )

  -- The chain after the replacement of entry `q` by `new`.
  pub Chain-swap :
      (q : ℕ) (cs : List Cell)
      → stop % 4 ≡ 0
      → Chain h stop cs
      → find k cs ≡ some q
      → has new cs ≡ false
      → Rewired h g q new (new + 1) (get_unmarked_reference (h q).next)
      → Chain g stop (swap k new cs)
  unfolding swap
  Chain-swap q [] s c e fresh w = tt
  Chain-swap q ((a, j, true) ∷ cs) s c e fresh w =
      let here = sym (find-dead k a j cs (find-within k a j true cs q e)) ∙ e in
      let fresh' : has new cs ≡ false = ground arith in
      before_swap q a j (new + 1) _ true cs c (ground arith) (has-find k q cs here) w
        (Chain-swap q cs s c.5 here fresh' w)
  Chain-swap q ((a, j, false) ∷ cs) s c e fresh w = elim (Bool-cases (j == k)) [
    | inl same ↦
        let at : a ≡ q = find-eq k a j cs q e same in
        let fresh' : has new cs ≡ false = ground arith in
        let next : get_unmarked_reference (h a).next ≡ start stop cs =
          get_unmarked-start h stop cs s c.5 (h a).next (omega (arith, c.3)) in
        let w' : Rewired h g a new (new + 1) (start stop cs) = rw (← at, next) at w in
        rw same (
          c.0,
          c.1,
          OnlyNext-hash h g w'.fields a ∙ c.2,
          w'.left_next,
          ground arith,
          new_cell cs a (new + 1) fresh' w' (untouched cs a (new + 1) _ c.4 fresh' w' c.5),
        )
    | inr differ ↦
        let here = sym (find-less k a j cs (find-some_lt k a j cs q e differ)) ∙ e in
        let fresh' : has new cs ≡ false = ground arith in
        rw differ (
          before_swap q a j (new + 1) _ false cs c (ground arith) (has-find k q cs here) w
            (Chain-swap q cs s c.5 here fresh' w))
  ]
