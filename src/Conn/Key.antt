-- ===== src/Conn/Key.antt =====
-- src/scot-conn.cc, `wkey_helper` and `rkey_helper`, the key sets, and the names of
-- src/includes/scot-def.hh.
use scot.Base.{ℕ, ◌≡◌, ◌++◌, ◌∷◌, refl}
use scot.Base.Int.{ℤ, pos, negsuc}
use scot.Conn.Strings.{Text, codes, to_string, to_string-NoDash, to_string-injective, last_dash}

-- `if (id >= 0) { key += "-"; key += std::to_string(id); }`
abbrev pub add_id : Text → ℤ → Text
add_id key (pos n) = key ++ 45 ∷ to_string n
add_id key (negsuc n) = key

-- The default argument, -1.
abbrev pub no_id : ℤ
no_id = negsuc 0

unfoldable pub wkey_helper : (resrc : Text) → (local remote : ℤ) → Text
wkey_helper resrc local remote = add_id (add_id resrc local) remote

unfoldable pub rkey_helper : (resrc : Text) → (local remote : ℤ) → Text
rkey_helper resrc local remote = add_id (add_id resrc remote) local

abbrev pub hbkey_mr_rpli : Text
hbkey_mr_rpli = codes "mr-rpli"

abbrev pub hbkey_mr_chkr : Text
hbkey_mr_chkr = codes "mr-chkr"

abbrev pub hbkey_mr_rply : Text
hbkey_mr_rply = codes "mr-rply"

abbrev pub hbkey_mr_rcvr : Text
hbkey_mr_rcvr = codes "mr-rcvr"

abbrev pub hbkey_qp_rpli : Text
hbkey_qp_rpli = codes "qp-rpli"

abbrev pub hbkey_qp_chkr : Text
hbkey_qp_chkr = codes "qp-chkr"

abbrev pub hbkey_qp_rply : Text
hbkey_qp_rply = codes "qp-rply"

abbrev pub hbkey_qp_rcvr : Text
hbkey_qp_rcvr = codes "qp-rcvr"

abbrev pub hbkey_scq_rpli : Text
hbkey_scq_rpli = codes "scq-rpli"

abbrev pub hbkey_scq_chkr : Text
hbkey_scq_chkr = codes "scq-chkr"

abbrev pub hbkey_scq_rply : Text
hbkey_scq_rply = codes "scq-rply"

abbrev pub hbkey_scq_rcvr : Text
hbkey_scq_rcvr = codes "scq-rcvr"

abbrev pub hbkey_rcq_rpli : Text
hbkey_rcq_rpli = codes "rcq-rpli"

abbrev pub hbkey_rcq_chkr : Text
hbkey_rcq_chkr = codes "rcq-chkr"

abbrev pub hbkey_rcq_rply : Text
hbkey_rcq_rply = codes "rcq-rply"

abbrev pub hbkey_rcq_rcvr : Text
hbkey_rcq_rcvr = codes "rcq-rcvr"

-- One of `rpli_ks`, `chkr_ks`, `rply_ks` and `rcvr_ks`, by KEY_MR, KEY_QP, KEY_SCQ and KEY_RCQ.
pub record Keyset : Type 0 where
  pub mr : Text
  pub qp : Text
  pub scq : Text
  pub rcq : Text

abbrev pub rpli_ks : Keyset
rpli_ks = record {
  mr = hbkey_mr_rpli;
  qp = hbkey_qp_rpli;
  scq = hbkey_scq_rpli;
  rcq = hbkey_rcq_rpli;
}

abbrev pub chkr_ks : Keyset
chkr_ks = record {
  mr = hbkey_mr_chkr;
  qp = hbkey_qp_chkr;
  scq = hbkey_scq_chkr;
  rcq = hbkey_rcq_chkr;
}

abbrev pub rply_ks : Keyset
rply_ks = record {
  mr = hbkey_mr_rply;
  qp = hbkey_qp_rply;
  scq = hbkey_scq_rply;
  rcq = hbkey_rcq_rply;
}

abbrev pub rcvr_ks : Keyset
rcvr_ks = record {
  mr = hbkey_mr_rcvr;
  qp = hbkey_qp_rcvr;
  scq = hbkey_scq_rcvr;
  rcq = hbkey_rcq_rcvr;
}

abbrev pub hbkey_pd : Text
hbkey_pd = codes "pd-scot"

abbrev pub hbkey_mr_hbtr : Text
hbkey_mr_hbtr = codes "mr-hbtr"

abbrev pub hbkey_qp_hbtr : Text
hbkey_qp_hbtr = codes "qp-hbtr"

abbrev pub hbkey_scq_hbtr : Text
hbkey_scq_hbtr = codes "scq-hbtr"

abbrev pub hbkey_rcq_hbtr : Text
hbkey_rcq_hbtr = codes "rcq-hbtr"

-- A key with two ids says which resource, which node and which peer it is for.
pub wkey_helper-injective :
    (r r' : Text) (a a' b b' : ℕ)
    → wkey_helper r (pos a) (pos b) ≡ wkey_helper r' (pos a') (pos b')
    → (r ≡ r') × (a ≡ a') × (b ≡ b')
unfolding wkey_helper
wkey_helper-injective r r' a a' b b' e =
    let outer =
      last_dash _ _ (to_string b) (to_string b') (to_string-NoDash b) (to_string-NoDash b') e in
    let inner =
      last_dash r r' (to_string a) (to_string a') (to_string-NoDash a) (to_string-NoDash a')
        outer.0 in
    (inner.0, to_string-injective a a' inner.1, to_string-injective b b' outer.1)

-- The two helpers name the same connection from its two ends.
pub rkey_helper-wkey_helper : (r : Text) (a b : ℤ) → rkey_helper r a b ≡ wkey_helper r b a
unfolding rkey_helper wkey_helper
rkey_helper-wkey_helper r a b = refl
