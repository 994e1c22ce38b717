-- ===== src/Conn/Calls.antt =====
-- The calls of the hartebeest library that src/scot-conn.cc makes. The library is not part of the
-- repository: a call is an element of a trace, and what calls return comes from a parameter.
use scot.Base.{ℕ, Bool, List, [], ◌∷◌, ◌≡◌, ◌⊎◌, ◌++◌, inl, inr, refl, ◌∙◌}
use scot.Conn.Strings.{Text}

pub data Call : Type 0 where
  init : Call
  create_local_pd : (pd : Text) → Call
  create_local_mr : (pd mr : Text) (size : ℕ) → Call
  create_basiccq : (cq : Text) → Call
  create_local_qp : (pd qp scq rcq : Text) → Call
  init_local_qp : (pd qp : Text) → Call
  memc_push_local_mr : (key pd mr : Text) → Call
  memc_push_local_qp : (key pd qp : Text) → Call
  memc_fetch_remote_mr : (key : Text) → Call
  memc_fetch_remote_qp : (key : Text) → Call
  connect_local_qp : (pd local_qp remote_qp : Text) → Call
  memc_push_general : (key : Text) → Call
  memc_wait_general : (key : Text) → Call
  memc_del_general : (key : Text) → Call

-- What the library returns: whether a push succeeded, the queue pairs and memory regions behind the
-- names, as pointers, and the field `addr` of a region.
pub record Hartebeest : Type 0 where
  pub is_pushed : Call → Bool
  pub local_qp : Text → ℕ
  pub local_mr : Text → ℕ
  pub remote_mr : Text → ℕ
  pub addr : ℕ → ℕ

abbrev pub Has : Call → List Call → Type 0
Has c [] = ⊥
Has c (d ∷ ds) = (c ≡ d) ⊎ Has c ds

pub Has-append_left : (c : Call) (ds es : List Call) → Has c ds → Has c (ds ++ es)
Has-append_left c [] es h = elim h [ ]
Has-append_left c (d ∷ ds) es (inl e) = inl e
Has-append_left c (d ∷ ds) es (inr h) = inr (Has-append_left c ds es h)

pub Has-append_right : (c : Call) (ds es : List Call) → Has c es → Has c (ds ++ es)
Has-append_right c [] es h = h
Has-append_right c (d ∷ ds) es h = inr (Has-append_right c ds es h)

pub Has-append_cases : (c : Call) (ds es : List Call) → Has c (ds ++ es) → Has c ds ⊎ Has c es
Has-append_cases c [] es h = inr h
Has-append_cases c (d ∷ ds) es (inl e) = inl (inl e)
Has-append_cases c (d ∷ ds) es (inr h) = elim (Has-append_cases c ds es h) [
  | inl l ↦ inl (inr l)
  | inr r ↦ inr r
]

-- A trace without a call.
abbrev pub Lacks : Call → List Call → Type 0
Lacks c cs = Has c cs → ⊥

pub Lacks-append : (c : Call) (ds es : List Call) → Lacks c ds → Lacks c es → Lacks c (ds ++ es)
Lacks-append c ds es d e h = elim (Has-append_cases c ds es h) [ inl l ↦ d l | inr r ↦ e r ]

-- A call that has been made, and that an initial part of the trace lacks, comes behind that part.
pub prefix_of :
    (c : Call) (x y d t : List Call)
    → d ++ t ≡ x ++ y
    → Has c d
    → Lacks c x
    → (e : List Call) × (d ≡ x ++ e)
prefix_of c [] y d t p h l = (d, refl)
prefix_of c (b ∷ x) y [] t p h l = elim h [ ]
prefix_of c (b ∷ x) y (a ∷ d) t p (inl e) l = let heads : a ≡ b = cc in absurd (l (inl (e ∙ heads)))
prefix_of c (b ∷ x) y (a ∷ d) t p (inr h) l =
    let tails : d ++ t ≡ x ++ y = cc in
    let (e, q) = prefix_of c x y d t tails h (λ g. l (inr g)) in
    let heads : a ≡ b = cc in (e, cc (heads, q))
