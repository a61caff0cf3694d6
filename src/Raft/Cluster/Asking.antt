-- ===== src/Raft/Cluster/Asking.antt =====
-- The answer to a request for a vote keeps the invariant of a cluster.
use advanced_group_chat_syst.Base.{
  ℕ, ℤ, minus_one, ◌<ℤ◌, true, ◌≡◌, ◌≢◌, ◌⊎◌, inl, inr, refl, sym, ap, ◌∙◌, subst, List, ◌∷◌, In,
  Bool-cases, if◌then◌else◌, arith,
}
use advanced_group_chat_syst.Pb.{RequestVoteRequest}
use advanced_group_chat_syst.Raft.State.{ConsensusModule}
use advanced_group_chat_syst.Raft.Vote.{request_vote_helper}
use advanced_group_chat_syst.Raft.Cluster.{Count, Cluster, update, after_request}
use advanced_group_chat_syst.Raft.Cluster.Plain.{
  is_settled, Granting, granted-Granting, refused-Plain,
}
use advanced_group_chat_syst.Raft.Cluster.Invariant.{
  Deposed, OutOf, Firm, Consistent, NodeInv, Inv, NodeInv-Plain, Inv-Plain,
}
use advanced_group_chat_syst.Raft.Cluster.Voting.{voted, voted-Inv}

module _ (members : List ℤ) (real : In minus_one members → ⊥) (s : Cluster) (p c t : ℤ)
    (cm cm' : ConsensusModule) (member : In p members) (candidate_member : In c members)
    (apart : p ≢ c) (n : NodeInv members s p cm)
    (known : (q d u : ℤ) → In (q, d, u) s.votes → In d members) (g : Granting cm cm' c t) where
  n1 : NodeInv members s p g.before
  n1 = NodeInv-Plain members s p cm g.before g.plain n

  not_minus_one : (d : ℤ) → In d members → d ≢ minus_one
  not_minus_one d m e = real (subst (λ x. In x members) e m)

  settled : is_settled g.before.state ≡ true
  settled = elim (Bool-cases (is_settled g.before.state)) [
    | inl yes_settled ↦ yes_settled
    | inr running ↦
        let self = n1.own running in
        elim g.free [
          | inl bare ↦ absurd (not_minus_one p member (sym self ∙ bare))
          | inr voted_c ↦ absurd (apart (sym self ∙ voted_c))
        ]
  ]

  settled' : is_settled cm'.state ≡ true
  settled' = ap is_settled g.same_state ∙ settled

  at : cm'.current_term ≡ t
  at = g.same_term ∙ g.in_term

  -- A vote of the same term that is in force is a vote for the same candidate.
  In-force : (d : ℤ) → In d members → g.before.voted_for ≡ d → d ≡ c
  In-force d m e = elim g.free [
    | inl bare ↦ absurd (not_minus_one d m (sym e ∙ bare))
    | inr voted_c ↦ sym e ∙ voted_c
  ]

  Firm-now : (d u : ℤ) → In (p, d, u) s.votes → Firm s.led p cm' d u
  Firm-now d u old = elim (n1.firm d u old) [
    | inl past ↦ inl (subst (λ x. u <ℤ x) (sym g.same_term) past)
    | inr (in_t, how) ↦ inr (
      g.same_term ∙ in_t,
      elim how [
        | inl (voted_d, role) ↦
            inl (g.voted ∙ sym (In-force d (known p d u old) voted_d), inl settled')
        | inr (self, quiet, deposed) ↦ inr (self, settled', deposed)
      ],
    )
  ]

  -- An older vote of the same term, against the new one.
  against : (d : ℤ) → In (p, d, t) s.votes → (d ≡ c) ⊎ (Deposed s.led p t × (d ≡ p))
  against d old = elim (n1.firm d t old) [
    | inl past ↦ absurd (ground (arith, g.in_term))
    | inr (in_t, how) ↦ elim how [
      | inl (voted_d, role) ↦ inl (In-force d (known p d t old) voted_d)
      | inr (self, quiet, deposed) ↦ inr (deposed, self)
    ]
  ]

  out_now : (u : ℤ) → OutOf g.before u → OutOf cm' u
  out_now u (inl past) = inl (subst (λ x. u <ℤ x) (sym g.same_term) past)
  out_now u (inr (in_t, quiet)) = inr (g.same_term ∙ in_t, settled')

  granted-NodeInv : (counted : ℤ → ℤ → Count) → NodeInv members (voted p c t cm' counted s) p cm'
  granted-NodeInv counted = record {
    is_id = g.same_id ∙ n1.is_id;
    peers = g.same_peers ∙ n1.peers;
    own = λ h. absurd (ground (arith, settled'));
    ran = λ h. absurd (ground (arith, settled'));
    firm = λ d u h. elim h [
      | inl new ↦
          inr (at ∙ sym (ap (λ v. v.2) new), inl (g.voted ∙ sym (ap (λ v. v.1) new), inl settled'))
      | inr old ↦ Firm-now d u old
    ];
    twice = λ d d' u h h'. elim h [
      | inl new ↦ elim h' [
        | inl new' ↦ inl (ap (λ v. v.1) new ∙ sym (ap (λ v. v.1) new'))
        | inr old ↦ second d d' u (ap (λ v. v.1) new) (ap (λ v. v.2) new) old
      ]
      | inr old ↦ elim h' [
        | inl new' ↦ elim (second d' d u (ap (λ v. v.1) new') (ap (λ v. v.2) new') old) [
          | inl same ↦ inl (sym same)
          | inr (deposed, self, out) ↦
              inr (deposed, elim self [ inl a ↦ inr a | inr b ↦ inl b ], out)
        ]
        | inr old' ↦ elim (n1.twice d d' u old old') [
          | inl same ↦ inl same
          | inr (deposed, self, out) ↦ inr (deposed, self, out_now u out)
        ]
      ]
    ];
    leads = λ h. absurd (ground (arith, settled'));
  }
    where
      second : (d d' u : ℤ) → d ≡ c → u ≡ t → In (p, d', u) s.votes → Consistent s.led p cm' d d' u
      second d d' u e f old = elim (against d' (subst (λ x. In (p, d', x) s.votes) f old)) [
        | inl same ↦ inl (e ∙ sym same)
        | inr (deposed, self) ↦
            inr (subst (Deposed s.led p) (sym f) deposed, inr self, inr (at ∙ sym f, settled'))
      ]

-- A vote request of an election that its candidate has started.
pub asked-Inv :
    (members : List ℤ) (s : Cluster) (p : ℤ) (now : ℕ) (req : RequestVoteRequest)
    → (In minus_one members → ⊥)
    → In p members
    → p ≢ req.candidate_id
    → In (req.candidate_id, req.candidate_id, req.term) s.votes
    → Inv members s
    → Inv members (after_request p req (request_vote_helper now req (s.node p)) s)
asked-Inv members s p now req real m apart runs inv =
    let cm = (request_vote_helper now req (s.node p)).0 in
    elim (Bool-cases (request_vote_helper now req (s.node p)).1.vote_granted) [
      | inl granted ↦
          subst
            (λ b. Inv members (record s {
              node = update p cm s.node;
              votes = if b then (p, req.candidate_id, req.term) ∷ s.votes else s.votes;
            }))
            (sym granted)
            (voted-Inv members p req.candidate_id req.term cm s.counted s inv
              (inv.known req.candidate_id req.candidate_id req.term runs) (λ c t. inr refl)
              (granted-NodeInv members real s p req.candidate_id req.term (s.node p) cm m
                (inv.known req.candidate_id req.candidate_id req.term runs) apart (inv.nodes p)
                inv.known (granted-Granting now req (s.node p) granted) s.counted))
      | inr refused ↦
          subst
            (λ b. Inv members (record s {
              node = update p cm s.node;
              votes = if b then (p, req.candidate_id, req.term) ∷ s.votes else s.votes;
            }))
            (sym refused) (Inv-Plain members s p cm (refused-Plain now req (s.node p) refused) inv)
    ]
