-- ===== src/Node/Restart.antt =====
-- What a server knows after a restart of the votes that it has given.
use advanced_group_chat_syst.Base.{
  ℕ, ◌<◌, ℤ, ltb, pos, minus_one, ◌<ℤ◌, ◌≤ℤ◌, true, false, ◌≡◌, refl, sym, ap, ◌∙◌, List, [], ◌∷◌,
  length, ok, Result-cases, inl, inr, Bool-cases, ltb_ℤ, eq_of_parts, ◌⊎◌, arith,
}
use advanced_group_chat_syst.Pb.{RequestVoteRequest}
use advanced_group_chat_syst.Raft.State.{
  Persisted, run_election_timer, new_consensus_module, persist, persisted, ConsensusModule, is_dead,
  last_log_index_and_term,
}
use advanced_group_chat_syst.Raft.Vote.{request_vote_helper}
use advanced_group_chat_syst.Raft.Vote.Grants.{MayVote-granted}
use advanced_group_chat_syst.Storage.Backend.{Backend, IsLawful}
use advanced_group_chat_syst.Storage.RaftState.{set_state}
use advanced_group_chat_syst.Storage.RaftState.Round.{Writable, set_get_state, set-has_data}
use advanced_group_chat_syst.Node.{write_effects, start_module}

-- A handled vote request persists the state that it leaves, and does that last.
vote_effects :
    (now : ℕ) (req : RequestVoteRequest) (cm : ConsensusModule)
    → is_dead cm.state ≡ false
    → ((request_vote_helper now req cm).2
        ≡ persist (persisted (request_vote_helper now req cm).0) ∷ [])
      ⊎ ((request_vote_helper now req cm).2
          ≡ run_election_timer ∷ persist (persisted (request_vote_helper now req cm).0) ∷ [])
unfolding request_vote_helper
vote_effects now req cm alive = elim (Bool-cases (ltb_ℤ cm.current_term req.term)) [
  | inl newer ↦ inr (rw (alive, newer))
  | inr same ↦ inl (rw (alive, same))
]

vote_keeps :
    (now : ℕ) (req : RequestVoteRequest) (cm : ConsensusModule)
    → is_dead cm.state ≡ false
    → ((request_vote_helper now req cm).0.log ≡ cm.log)
      × ((request_vote_helper now req cm).1.term ≡ (request_vote_helper now req cm).0.current_term)
unfolding request_vote_helper
vote_keeps now req cm alive = ground arith

module _ (b : Backend) (law : IsLawful b) (writable : Writable b) where
  write_persist :
      (p : Persisted) (s t : b.Store)
      → write_effects b (persist p ∷ []) s ≡ ok t
      → set_state b p s ≡ ok t
  unfolding write_effects
  write_persist p s t h = elim (Result-cases (set_state b p s)) [
    | inl bad ↦ absurd (ground (arith, bad))
    | inr (s', done) ↦ ground (arith, done)
  ]

  vote_written :
      (now : ℕ) (req : RequestVoteRequest) (cm : ConsensusModule) (s t : b.Store)
      → is_dead cm.state ≡ false
      → write_effects b (request_vote_helper now req cm).2 s ≡ ok t
      → set_state b (persisted (request_vote_helper now req cm).0) s ≡ ok t
  vote_written now req cm s t alive h = elim (vote_effects now req cm alive) [
    | inl e ↦ write_persist _ s t (ap (λ es. write_effects b es s) (sym e) ∙ h)
    | inr e ↦
        write_persist _ s t (unfold write_effects in ap (λ es. write_effects b es s) (sym e) ∙ h)
  ]

  -- On a store that reads what was written and on which no write fails, a live server that handled
  -- a vote request and restarts from its disk has the term, the vote and the log with which it
  -- replied, if its log holds an entry.
  pub restart_restores :
      (now : ℕ) (req : RequestVoteRequest) (cm : ConsensusModule) (s t : b.Store) (id : ℤ)
      (peers : List ℤ)
      → is_dead cm.state ≡ false
      → write_effects b (request_vote_helper now req cm).2 s ≡ ok t
      → 0 < length cm.log
      → let (cm', reply, _) = request_vote_helper now req cm in
        (cm'' : ConsensusModule) × (start_module b id peers t ≡ ok cm'')
        × (cm''.current_term ≡ reply.term)
        × (cm''.voted_for ≡ cm'.voted_for)
        × (cm''.log ≡ cm.log)
  unfolding new_consensus_module persisted
  restart_restores now req cm s t id peers alive h some_entry =
      let cm' = (request_vote_helper now req cm).0 in
      let (keeps, replied) = vote_keeps now req cm alive in
      let wrote = vote_written now req cm s t alive h in
      let got = set_get_state b law writable (persisted cm') s t wrote in
      let has = set-has_data b law writable (persisted cm') s t wrote in
      let full : ltb 0 (length cm'.log) ≡ true = rw keeps (ground arith) in
      (
        new_consensus_module id peers true (persisted cm'),
        unfold start_module in ground (arith, has, full, got),
        sym replied,
        refl,
        keeps,
      )

  -- On a store that reads what was written and on which no write fails, a live server with an empty
  -- log has lost its term and its vote after a restart: whatever it voted in handling a request, it
  -- grants a vote to any candidate in any positive term, provided the candidate's last index and
  -- term are at least -1.
  pub restart_second_vote :
      (now later : ℕ) (req req' : RequestVoteRequest) (cm : ConsensusModule) (s t : b.Store)
      (id : ℤ) (peers : List ℤ)
      → is_dead cm.state ≡ false
      → write_effects b (request_vote_helper now req cm).2 s ≡ ok t
      → cm.log ≡ []
      → pos 0 <ℤ req'.term
      → minus_one ≤ℤ req'.last_log_term
      → minus_one ≤ℤ req'.last_log_index
      → (cm'' : ConsensusModule) × (start_module b id peers t ≡ ok cm'')
        × ((request_vote_helper later req' cm'').1.vote_granted ≡ true)
  unfolding new_consensus_module last_log_index_and_term persisted
  restart_second_vote now later req req' cm s t id peers alive h none_logged real lt li =
      let cm' = (request_vote_helper now req cm).0 in
      let keeps = (vote_keeps now req cm alive).0 in
      let has =
        set-has_data b law writable (persisted cm') s t (vote_written now req cm s t alive h) in
      let bare : ltb 0 (length cm'.log) ≡ false = rw (keeps, none_logged) refl in
      let fresh =
        new_consensus_module id peers false
          (record { term = pos 0; voted_for = minus_one; log = [] }) in
      (
        fresh,
        unfold start_module in ground (arith, has, bare),
        MayVote-granted later req' fresh (ground (arith, eq_of_parts req'.last_log_term minus_one)),
      )
