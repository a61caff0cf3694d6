-- ===== src/Raft/Cluster/Leading.antt =====
-- The steps that count votes, start leaders and deliver their entries keep the invariant of a cluster.
use advanced_group_chat_syst.Base.{
  ℕ, suc, ◌+◌, ◌*◌, ◌≤◌, false, ◌⊎◌, refl, ap, ℤ, beq_ℤ, beq_ℤ_iff, ltb, true, ◌≡◌, ◌≢◌, inl, inr,
  sym, ◌∙◌, subst, List, [], ◌∷◌, length, In, Distinct, Bool-cases, arith,
}
use advanced_group_chat_syst.Pb.{RequestVoteResponse}
use advanced_group_chat_syst.Raft.State.{ConsensusModule, Effect, become_follower, int_eq}
use advanced_group_chat_syst.Raft.Vote.{vote_reply, start_leader}
use advanced_group_chat_syst.Raft.Cluster.{
  Count, Cluster, set_node, set_counted, others, starts_leader, reply_count, after_reply, IsTimely,
}
use advanced_group_chat_syst.Raft.Cluster.Plain.{Plain, answer-Plain}
use advanced_group_chat_syst.Raft.Cluster.Invariant.{Won, Fair, Inv, NodeInv-moved, Inv-Plain}

-- A reply either leaves the counter as it was and starts no goroutine, or is a granted vote, which adds
-- one, and startLeader is started only if the votes are then more than half.
vote_reply-cases :
    (now : ℕ) (t : ℤ) (reply : RequestVoteResponse) (n : ℕ) (cm : ConsensusModule)
    → let (cm', votes, es) = vote_reply now t reply n cm in
      ((votes ≡ n) × (starts_leader es ≡ false))
      ⊎ ((votes ≡ suc n)
          × (reply.vote_granted ≡ true)
          × (starts_leader es ≡ true → ltb (length cm.peer_ids + 1) (suc n * 2) ≡ true))
unfolding vote_reply start_leader become_follower
vote_reply-cases now t reply n cm = ground arith

module _ (members : List ℤ) (votes : List (ℤ × ℤ × ℤ)) (c t p : ℤ) (old : Count) (n : ℕ)
    (es : List Effect) (f : Fair members votes c t old) where
  Fair-same :
      n ≡ old.received → starts_leader es ≡ false → Fair members votes c t (reply_count p n es old)
  Fair-same same none =
      let low : ltb old.received n ≡ false = ground (arith, same) in
      record {
        alone = rw low f.alone;
        tally = λ q. rw low (f.tally q);
        sum = rw low (same ∙ f.sum);
        ready = λ h. elim (Bool-cases old.won) [
          | inl was ↦ f.ready was
          | inr never ↦ absurd (ground (arith, h, none, never))
        ];
      }

  Fair-raised :
      In p members
      → p ≢ c
      → (In p old.peers → ⊥)
      → In (p, c, t) votes
      → n ≡ suc old.received
      → (starts_leader es ≡ true → Won members votes c t)
      → Fair members votes c t (reply_count p n es old)
  Fair-raised m apart new vote more win =
      let high : ltb old.received n ≡ true = ground (arith, more) in
      record {
        alone = rw high (new, f.alone);
        tally = λ q. rw high (λ h. elim h [
          | inl same ↦ (
            subst (λ x. In x members) (sym same) m,
            λ k. apart (sym same ∙ k),
            subst (λ x. In (x, c, t) votes) (sym same) vote,
          )
          | inr before ↦ f.tally q before
        ]);
        sum = rw high (more ∙ ap suc f.sum);
        ready = λ h. elim (Bool-cases old.won) [
          | inl was ↦ f.ready was
          | inr never ↦ win (ground (arith, h, never))
        ];
      }

-- A new count, with votes that were given.
counted-Inv :
    (members : List ℤ) (s : Cluster) (c t : ℤ) (count : Count)
    → Fair members s.votes c t count
    → Inv members s
    → Inv members (record s { counted = set_counted c t count s.counted })
counted-Inv members s c t count f inv = record {
  nodes =
      λ i. NodeInv-moved members s s' i (s.node i) (λ d u h. h) (λ v h. h) (λ l h. h) (inv.nodes i);
  known = inv.known;
  fair = λ d u. elim (Bool-cases (beq_ℤ d c)) [
    | inl same ↦ elim (Bool-cases (beq_ℤ u t)) [
      | inl now ↦
          rw (same, now)
            (subst (λ x. Fair members s.votes x u count) (sym ((beq_ℤ_iff d c).0 same))
              (subst (λ x. Fair members s.votes c x count) (sym ((beq_ℤ_iff u t).0 now)) f))
      | inr other ↦ rw (same, other) (inv.fair d u)
    ]
    | inr other ↦ rw other (inv.fair d u)
  ];
  wins = inv.wins;
  mail = inv.mail;
  unique = inv.unique;
}
  where
    s' : Cluster
    s' = record s { counted = set_counted c t count s.counted }

length-others_other : (i : ℤ) (ms : List ℤ) → (In i ms → ⊥) → length ms ≤ length (others i ms)
length-others_other i [] h = omega arith
length-others_other i (m ∷ ms) h = ground (
  arith,
  beq_ℤ_iff m i,
  length-others_other i ms (λ k. h (inr k)),
  λ (e : m ≡ i). h (inl (sym e)),
)

pub length-others : (i : ℤ) (ms : List ℤ) → Distinct ms → length ms ≤ suc (length (others i ms))
length-others i [] d = omega arith
length-others i (m ∷ ms) (new, d) = elim (Bool-cases (beq_ℤ m i)) [
  | inl same ↦ rw same (
      omega (
        arith,
        length-others_other i ms (λ h. new (subst (λ x. In x ms) (sym ((beq_ℤ_iff m i).0 same)) h)),
      ))
  | inr other ↦ rw other (omega (arith, length-others i ms d))
]

-- The candidate, the peers counted and one more are a majority if the code's test says so.
majority :
    (members : List ℤ) (s : Cluster) (c p t : ℤ)
    → Distinct members
    → In p members
    → p ≢ c
    → In (c, c, t) s.votes
    → (In p (s.counted c t).peers → ⊥)
    → In (p, c, t) s.votes
    → ltb (length (s.node c).peer_ids + 1) (suc (s.counted c t).received * 2) ≡ true
    → Inv members s
    → Won members s.votes c t
majority members s c p t distinct m apart ran new vote test inv =
    let f = inv.fair c t in
    (
      c ∷ p ∷ (s.counted c t).peers,
      (λ h. elim h [ inl same ↦ apart (sym same) | inr k ↦ (f.tally c k).1 refl ], (new, f.alone)),
      λ q h. elim h [
        | inl own ↦ (
          subst (λ x. In x members) (sym own) (inv.known c c t ran),
          subst (λ x. In (x, c, t) s.votes) (sym own) ran,
        )
        | inr (inl last) ↦ (
          subst (λ x. In x members) (sym last) m,
          subst (λ x. In (x, c, t) s.votes) (sym last) vote,
        )
        | inr (inr before) ↦ let (member, other, v) = f.tally q before in (member, v)
      ],
      ground (arith, test, f.sum, length-others c members distinct, ap length (inv.nodes c).peers),
    )

-- A reply that does not come too late.
pub answered-Inv :
    (members : List ℤ) (s : Cluster) (c p t : ℤ) (now : ℕ) (reply : RequestVoteResponse)
    → Distinct members
    → In p members
    → p ≢ c
    → In (c, c, t) s.votes
    → IsTimely t reply (s.node c)
    → (In p (s.counted c t).peers → ⊥)
    → (reply.vote_granted ≡ true → In (p, c, t) s.votes)
    → Inv members s
    → Inv members (after_reply c t p (vote_reply now t reply (s.counted c t).received (s.node c)) s)
answered-Inv members s c p t now reply distinct m apart ran timely new vote inv =
    let old = s.counted c t in
    let f = inv.fair c t in
    let (cm, votes, es) = vote_reply now t reply old.received (s.node c) in
    let plain : Plain (s.node c) cm = answer-Plain now t reply old.received (s.node c) timely in
    counted-Inv members (set_node c cm s) c t (reply_count p votes es old)
      (elim (vote_reply-cases now t reply old.received (s.node c)) [
        | inl (same, none) ↦ Fair-same members s.votes c t p old votes es f same none
        | inr (more, granted, test) ↦
            Fair-raised members s.votes c t p old votes es f m apart new (vote granted) more
              (λ h. majority members s c p t distinct m apart ran new (vote granted) (test h) inv)
      ])
      (Inv-Plain members s c cm plain inv)
