-- ===== src/Core/Owner.antt =====
-- Who owns a hash value, and that its owner is reached.
use scot.Base.{
  ℕ, zero, suc, ◌+◌, ◌%◌, ◌≡◌, ◌≢◌, ◌<◌, ◌≤◌, ◌⊎◌, ◌∙◌, refl, sym, Bool, true, false, ◌||◌, Option,
  none, some, List, [], ◌∷◌, ◌==◌, if◌then◌else◌, ◌>>=◌, is_some, Bool-cases, ==_iff, inl, inr,
  arith,
}
use scot.Core.{
  Rule, Judge, find_rule, insert_rule, register_rule, update_active, judge, rule_balance,
  quorum_ids,
}

-- What is found under a key once a rule was inserted under another or the same key.
find-insert_rule :
    (key key' : ℕ) (rule : Rule) (rules : List (ℕ × Rule))
    → find_rule key' (insert_rule key rule rules) ≡ (
        if is_some (find_rule key' rules)
        then find_rule key' rules
        else if key == key'
        then some rule
        else none)
unfolding find_rule insert_rule
find-insert_rule key key' rule [] = refl
find-insert_rule key key' rule ((k, old) ∷ rules) = elim (Bool-cases (k == key)) [
  | inl same ↦ elim (Bool-cases (k == key')) [
    | inl here ↦ rw (same, here)
    | inr there ↦
        let e = (==_iff k key).0 same in
        rw (same, there) (rw (← e, there) (keep (find_rule key' rules)))
  ]
  | inr differ ↦ elim (Bool-cases (k == key')) [
    | inl here ↦ rw (differ, here)
    | inr there ↦ rw (differ, there) (find-insert_rule key key' rule rules)
  ]
]
  where
    keep : (o : Option Rule) → o ≡ (if is_some o then o else none)
    keep none = refl
    keep (some r) = refl

abbrev pub member : ℕ → List ℕ → Bool
member i [] = false
member i (j ∷ js) = i == j || member i js

quorum_ids-member :
    (k id nid i : ℕ) → id ≤ i → i < id + k → i ≢ nid → member i (quorum_ids k id nid) ≡ true
unfolding quorum_ids
quorum_ids-member zero id nid i lo hi ne = absurd (omega arith)
quorum_ids-member (suc k) id nid i lo hi ne =
    ground (arith, λ (lo' : id + 1 ≤ i). quorum_ids-member k (id + 1) nid i lo' (omega arith) ne)

-- The owner of a hash value is one node, and every other node reaches it: in a cluster of `n` nodes,
-- where the balancing rule for `n` was registered under an unused key and then activated, and whatever
-- rule someone registered under that key in between, `judge` names the one owner `hashv % n`, which
-- is a node, and which is among the peers that any other node makes a connection for.
pub judge-owner :
    (n key hashv : ℕ) (j : Judge) (rule : Rule)
    → 0 < n
    → find_rule key j.rdict ≡ none
    → (owner : ℕ) × (owner < n)
      × ((update_active (register_rule (register_rule j key (rule_balance n)) key rule) key >>= λ k.
            judge k hashv)
          ≡ some owner)
      × ((nid : ℕ) → nid < n → nid ≢ owner → member owner (quorum_ids n 0 nid) ≡ true)
unfolding update_active register_rule judge
judge-owner n key hashv j rule pos fresh =
    let self : (key == key) ≡ true = (==_iff key key).1 refl in
    let first : find_rule key (insert_rule key (rule_balance n) j.rdict) ≡ some (rule_balance n) =
      find-insert_rule key key (rule_balance n) j.rdict ∙ rw (fresh, self) in
    let second : find_rule key (insert_rule key rule (insert_rule key (rule_balance n) j.rdict))
        ≡ some (rule_balance n) =
      find-insert_rule key key rule (insert_rule key (rule_balance n) j.rdict) ∙ rw first in
    (
      hashv % n,
      omega arith,
      rw second,
      λ nid lt ne.
          quorum_ids-member n 0 nid (hashv % n) (omega arith) (omega arith) (λ e. ne (sym e)),
    )

quorum_ids-others :
    (k id nid i : ℕ) → (i < id) ⊎ (id + k ≤ i) ⊎ (i ≡ nid) → member i (quorum_ids k id nid) ≡ false
unfolding quorum_ids
quorum_ids-others zero id nid i out = refl
quorum_ids-others (suc k) id nid i out =
    let out' : (i < id + 1) ⊎ (id + 1 + k ≤ i) ⊎ (i ≡ nid) = ground arith in
    ground (arith, quorum_ids-others k (id + 1) nid i out')

-- The peers of a node in a cluster of `n` are exactly the ids below `n` other than its own.
pub quorum_ids-exact :
    (n nid i : ℕ)
    → ((i < n) × (i ≢ nid) → member i (quorum_ids n 0 nid) ≡ true)
      × ((n ≤ i) ⊎ (i ≡ nid) → member i (quorum_ids n 0 nid) ≡ false)
quorum_ids-exact n nid i = (
  λ peer. quorum_ids-member n 0 nid i (omega arith) (omega arith) peer.1,
  λ other. quorum_ids-others n 0 nid i (ground arith),
)
