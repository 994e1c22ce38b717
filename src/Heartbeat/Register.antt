-- ===== src/Heartbeat/Register.antt =====
-- Which scoreboard a heartbeat keeps.
use scot.Base.{
  ℕ, ◌≡◌, ◌==◌, if◌then◌else◌, List, [], ◌∷◌, refl, Bool-cases, inl, inr, ap, ==_iff, true, false,
}
use scot.Heartbeat.{ScotHeartbeat, register_scb, register_all}

-- The first address that is not null, or null.
abbrev pub first_address : List ℕ → ℕ
first_address [] = 0
first_address (addr ∷ addrs) = if addr == 0 then first_address addrs else addr

register_null :
    (hb : ScotHeartbeat) (addr : ℕ)
    → (hb.scb_open == 0) ≡ true
    → register_scb hb addr ≡ record hb { scb_open = addr }
unfolding register_scb
register_null hb addr null = rw null refl

register_held :
    (hb : ScotHeartbeat) (addr : ℕ) → (hb.scb_open == 0) ≡ false → register_scb hb addr ≡ hb
unfolding register_scb
register_held hb addr held = rw held refl

-- A heartbeat keeps its scoreboard: after any sequence of registrations it holds the address that it had,
-- where that was not null, and else the first address other than null that was registered; its table
-- and its thread are as they were.
pub register_all-first :
    (hb : ScotHeartbeat) (addrs : List ℕ)
    → ((register_all hb addrs).scb_open ≡ first_address (hb.scb_open ∷ addrs))
      × ((register_all hb addrs).scb_table ≡ hb.scb_table)
      × ((register_all hb addrs).beater ≡ hb.beater)
unfolding register_all
register_all-first hb [] = elim (Bool-cases (hb.scb_open == 0)) [
  | inl null ↦ (rw null ((==_iff hb.scb_open 0).0 null), refl, refl)
  | inr held ↦ (rw held refl, refl, refl)
]
register_all-first hb (addr ∷ addrs) = elim (Bool-cases (hb.scb_open == 0)) [
  | inl null ↦
      let e : register_all hb (addr ∷ addrs) ≡ register_all (record hb { scb_open = addr }) addrs =
        ap (λ (x : ScotHeartbeat). register_all x addrs) (register_null hb addr null) in
      rw (e, null) (register_all-first (record hb { scb_open = addr }) addrs)
  | inr held ↦
      let e : register_all hb (addr ∷ addrs) ≡ register_all hb addrs =
        ap (λ (x : ScotHeartbeat). register_all x addrs) (register_held hb addr held) in
      let (open_at, table, beater) = register_all-first hb addrs in
      let open_held : (register_all hb addrs).scb_open ≡ hb.scb_open = rw held at open_at in
      rw (e, held) (open_held, table, beater)
]
