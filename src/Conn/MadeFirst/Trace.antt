-- ===== src/Conn/MadeFirst/Trace.antt =====
-- The trace of src/scot-conn.cc, part by part: what each call needs is there before it.
use scot.Base.{ℕ, inl, inr, List, [], ◌∷◌, map, refl}
use scot.Conn.Strings.{Text}
use scot.Conn.Key.{hbkey_pd, rpli_ks, chkr_ks, rply_ks, rcvr_ks, hbkey_qp_hbtr}
use scot.Conn.Calls.{Call, create_local_pd, init_local_qp, memc_push_general}
use scot.Conn.{
  wkey, rkey, init_writers, init_peer, init_peer_writers, init_peer_readers, init_peer_heartbeat,
  connect_peer, each_peer, finalize_peer, wait_peer, setup_calls, wait_key,
}
use scot.Conn.Rendezvous.{Has-each_peer}
use scot.Conn.MadeFirst.{
  MadeFirst, Within, push_all, MadeFirst-Within, Within-push_all, Has-push_all, MadeFirst-append,
  MadeFirst-each_peer,
}

-- With the protection domain made, each part of the body of the first loop is well ordered.
abbrev pd_made : List Call
pd_made = create_local_pd hbkey_pd ∷ []

init_writers-MadeFirst : (nid : ℕ) → MadeFirst [] (init_writers nid)
unfolding init_writers
init_writers-MadeFirst nid =
    (tt, (tt, (inl refl, (inr (inl refl), (inr (inr (inl refl)), ((_, inl refl), tt))))))

module _ (nid peer : ℕ) where
  init_peer_writers-MadeFirst : MadeFirst pd_made (init_peer_writers nid peer)
  unfolding init_peer_writers
  init_peer_writers-MadeFirst = (
    tt,
    (
      tt,
      (
        tt,
        (
          tt,
          (
            (inr (inr (inr (inr (inl refl)))), inr (inr (inr (inl refl))), inr (inr (inl refl))),
            (
              (inr (inr (inr (inr (inr (inl refl))))), inr (inr (inl refl)), inr (inl refl)),
              (
                (_, _, inr (inl refl)),
                ((_, _, inr (inl refl)), (inr (inl refl), (inr (inl refl), tt))),
              ),
            ),
          ),
        ),
      ),
    ),
  )

  init_peer_readers-MadeFirst : MadeFirst pd_made (init_peer_readers nid peer)
  unfolding init_peer_readers
  init_peer_readers-MadeFirst = (
    tt,
    (
      tt,
      (
        tt,
        (
          tt,
          (
            inr (inr (inr (inr (inl refl)))),
            (
              inr (inr (inr (inr (inr (inl refl))))),
              (
                (
                  inr (inr (inr (inr (inr (inr (inl refl)))))),
                  inr (inr (inr (inr (inr (inl refl))))),
                  inr (inr (inr (inr (inl refl)))),
                ),
                (
                  (
                    inr (inr (inr (inr (inr (inr (inr (inl refl))))))),
                    inr (inr (inr (inr (inl refl)))),
                    inr (inr (inr (inl refl))),
                  ),
                  (
                    (_, _, inr (inl refl)),
                    (
                      (_, _, inr (inl refl)),
                      (
                        inr (inl refl),
                        (
                          (_, inr (inr (inr (inr (inr (inr (inl refl))))))),
                          (
                            inr (inr (inl refl)),
                            ((_, inr (inr (inr (inr (inr (inr (inr (inl refl)))))))), tt),
                          ),
                        ),
                      ),
                    ),
                  ),
                ),
              ),
            ),
          ),
        ),
      ),
    ),
  )

  init_peer_heartbeat-MadeFirst : MadeFirst pd_made (init_peer_heartbeat nid peer)
  unfolding init_peer_heartbeat
  init_peer_heartbeat-MadeFirst = (
    tt,
    (tt, ((inr (inr (inl refl)), inr (inl refl), inl refl), ((_, _, inl refl), (inl refl, tt)))),
  )

  init_peer-MadeFirst : MadeFirst pd_made (init_peer nid peer)
  unfolding init_peer
  init_peer-MadeFirst =
      MadeFirst-append pd_made (init_peer_writers nid peer) _ init_peer_writers-MadeFirst (
        MadeFirst-append _ (init_peer_readers nid peer) (init_peer_heartbeat nid peer)
          (MadeFirst-Within pd_made _ _ (Within-push_all (init_peer_writers nid peer) pd_made)
            init_peer_readers-MadeFirst)
          (MadeFirst-Within pd_made _ _
            (λ d h.
              Within-push_all (init_peer_readers nid peer) _ d
                (Within-push_all (init_peer_writers nid peer) pd_made d h))
            init_peer_heartbeat-MadeFirst))

  -- The five queue pairs of a peer, initialised.
  abbrev five : List Call
  five =
      init_local_qp hbkey_pd (wkey rpli_ks.qp nid peer)
      ∷ init_local_qp hbkey_pd (wkey chkr_ks.qp nid peer)
      ∷ init_local_qp hbkey_pd (rkey rply_ks.qp nid peer)
      ∷ init_local_qp hbkey_pd (rkey rcvr_ks.qp nid peer)
      ∷ init_local_qp hbkey_pd (wkey hbkey_qp_hbtr nid peer)
      ∷ []

  connect_peer-MadeFirst : MadeFirst five (connect_peer nid peer)
  unfolding connect_peer
  connect_peer-MadeFirst = (
    tt,
    (
      tt,
      (
        (inr (inr (inl refl)), inl refl),
        (
          tt,
          (
            tt,
            (
              (inr (inr (inr (inr (inr (inr (inl refl)))))), inl refl),
              (
                tt,
                (
                  (inr (inr (inr (inr (inr (inr (inr (inr (inr (inl refl))))))))), inl refl),
                  (
                    tt,
                    (
                      (
                        inr (
                            inr (
                              inr
                                (inr (inr (inr (inr (inr (inr (inr (inr (inr (inl refl)))))))))))),
                        inl refl,
                      ),
                      (
                        tt,
                        (
                          tt,
                          (
                            (
                              inr (
                                  inr (
                                    inr (
                                      inr (
                                        inr (
                                          inr (
                                            inr (
                                              inr (
                                                inr (
                                                  inr (
                                                    inr (
                                                      inr (
                                                        inr
                                                          (inr (inr (inr (inl refl)))))))))))))))),
                              inl refl,
                            ),
                            tt,
                          ),
                        ),
                      ),
                    ),
                  ),
                ),
              ),
            ),
          ),
        ),
      ),
    ),
  )

  five-Within : Within five (init_peer nid peer)
  unfolding init_peer init_peer_writers init_peer_readers init_peer_heartbeat
  five-Within d (inl e) = rw e (inr (inr (inr (inr (inr (inr (inl refl)))))))
  five-Within d (inr (inl e)) = rw e (inr (inr (inr (inr (inr (inr (inr (inl refl))))))))
  five-Within d (inr (inr (inl e))) = rw e (
      inr (
        inr (
          inr (
            inr (
              inr (
                inr (
                  inr (
                    inr
                      (inr (inr (inr (inr (inr (inr (inr (inr (inr (inr (inl refl)))))))))))))))))))
  five-Within d (inr (inr (inr (inl e)))) = rw e (
      inr (
        inr (
          inr (
            inr (
              inr (
                inr (
                  inr (
                    inr (
                      inr (
                        inr
                          (inr (inr (inr (inr (inr (inr (inr (inr (inr (inl refl))))))))))))))))))))
  five-Within d (inr (inr (inr (inr (inl e))))) = rw e (
      inr (
        inr (
          inr (
            inr (
              inr (
                inr (
                  inr (
                    inr (
                      inr (
                        inr (
                          inr (
                            inr (
                              inr (
                                inr (
                                  inr (
                                    inr (
                                      inr (
                                        inr (
                                          inr (
                                            inr (
                                              inr (
                                                inr (
                                                  inr (
                                                    inr (
                                                      inr (
                                                        inr
                                                          (inr (inl refl))))))))))))))))))))))))))))
  five-Within d (inr (inr (inr (inr (inr h))))) = elim h [ ]

  finalize_peer-MadeFirst : (b : List Call) → MadeFirst b (finalize_peer nid peer)
  unfolding finalize_peer
  finalize_peer-MadeFirst b = (tt, (tt, (tt, (tt, (tt, (tt, tt))))))

waits-MadeFirst : (b : List Call) (peers : List ℕ) → MadeFirst b (map wait_peer peers)
waits-MadeFirst b [] = tt
waits-MadeFirst b (p ∷ peers) = (tt, waits-MadeFirst (wait_peer p ∷ b) peers)

-- Nothing is used before it is made: in the trace of the constructor, for any list of peers, every memory region and
-- queue pair is created after its protection domain, a queue pair after both of its completion
-- queues; a queue pair is initialised after its creation, and published after that; a region is published
-- after its creation; and two queue pairs are connected after the local one is
-- initialised and the remote one fetched.
pub setup_calls-MadeFirst :
    (nid_text : Text) (nid : ℕ) (peers : List ℕ) → MadeFirst [] (setup_calls nid_text nid peers)
unfolding setup_calls init_writers
setup_calls-MadeFirst nid_text nid peers =
    let b1 = push_all (init_writers nid) [] in
    let inits = each_peer (init_peer nid) peers in
    let b2 = push_all inits b1 in
    let has_pd : Within pd_made b1 = λ d h.
      Has-push_all (init_writers nid) [] d
        (elim h [ inl e ↦ inr (inl e) | inr none_left ↦ elim none_left [ ] ]) in
    let connects = each_peer (connect_peer nid) peers in
    let waits = memc_push_general (wait_key nid_text) ∷ map wait_peer peers in
    MadeFirst-append [] (init_writers nid) _ (init_writers-MadeFirst nid) (
      MadeFirst-append b1 inits _
        (MadeFirst-each_peer b1 (init_peer nid) peers
          (λ p m. MadeFirst-Within pd_made b1 (init_peer nid p) has_pd (init_peer-MadeFirst nid p)))
        (MadeFirst-append b2 connects _
          (MadeFirst-each_peer b2 (connect_peer nid) peers (λ p m.
            MadeFirst-Within (five nid p) b2 (connect_peer nid p)
              (λ d h.
                Has-push_all inits b1 d
                  (Has-each_peer d (init_peer nid) p peers m (five-Within nid p d h)))
              (connect_peer-MadeFirst nid p)))
          (MadeFirst-append _ waits _ (tt, waits-MadeFirst _ peers)
            (MadeFirst-each_peer _ (finalize_peer nid) peers
              (λ p m. finalize_peer-MadeFirst nid p _)))))
