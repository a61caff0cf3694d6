-- ===== src/Raft/Cluster/Invariant.antt =====
-- What holds of the votes and the leaders of a cluster in every state that a run reaches.
use advanced_group_chat_syst.Base.{
  suc, refl, ◌+◌, ◌<◌, ℤ, beq_ℤ, beq_ℤ_iff, ltb_ℤ, eq_of_parts, ◌<ℤ◌, true, false, ◌≡◌, ◌≢◌, ◌⊎◌,
  inl, inr, sym, ◌∙◌, subst, List, ◌∷◌, length, In, Distinct, Bool-cases, arith,
}
use advanced_group_chat_syst.Pb.{LogEntry, AppendEntriesRequest}
use advanced_group_chat_syst.Raft.State.{ConsensusModule, is_leader}
use advanced_group_chat_syst.Raft.Cluster.{Count, new_count, Cluster, update, set_node, others}
use advanced_group_chat_syst.Raft.Cluster.Plain.{is_settled, Plain}

-- Another server than `q` has led in the term.
abbrev pub Deposed : List (ℤ × ℤ) → ℤ → ℤ → Type 0
Deposed led q t = (w : ℤ) × (w ≢ q) × In (w, t) led

-- The server is past the term, or will not be a candidate or a leader in it again.
abbrev pub OutOf : ConsensusModule → ℤ → Type 0
OutOf cm t = (t <ℤ cm.current_term) ⊎ ((cm.current_term ≡ t) × (is_settled cm.state ≡ true))

-- A vote that server `q`, in state `cm`, gave to `c` in term `t`: it is in force, or the term is past,
-- or it was the server's own and was given up for another leader of the term.
abbrev pub Firm : List (ℤ × ℤ) → ℤ → ConsensusModule → ℤ → ℤ → Type 0
Firm led q cm c t =
    (t <ℤ cm.current_term)
    ⊎ ((cm.current_term ≡ t)
        × (((cm.voted_for ≡ c) × ((is_settled cm.state ≡ true) ⊎ (c ≡ q)))
            ⊎ ((c ≡ q) × (is_settled cm.state ≡ true) × Deposed led q t)))

-- Two votes of one server in one term: for one candidate, unless the server voted for itself and
-- stepped down for another leader.
abbrev pub Consistent : List (ℤ × ℤ) → ℤ → ConsensusModule → ℤ → ℤ → ℤ → Type 0
Consistent led q cm c c' t = (c ≡ c') ⊎ (Deposed led q t × ((c ≡ q) ⊎ (c' ≡ q)) × OutOf cm t)

module _ (members : List ℤ) where
  -- More than half of the members have voted for `c`.
  abbrev pub Won : List (ℤ × ℤ × ℤ) → ℤ → ℤ → Type 0
  Won votes c t =
      (voters : List ℤ) × Distinct voters
      × ((q : ℤ) → In q voters → In q members × In (q, c, t) votes)
      × (length members < length voters + length voters)

  -- A count of votes that were given: the counter is one more than the peers counted, and leadership
  -- starts after a majority has voted.
  pub record Fair (votes : List (ℤ × ℤ × ℤ)) (c t : ℤ) (count : Count) : Type 0 where
    pub alone : Distinct count.peers
    pub tally : (p : ℤ) → In p count.peers → In p members × (p ≢ c) × In (p, c, t) votes
    pub sum : count.received ≡ suc (length count.peers)
    pub ready : count.won ≡ true → Won votes c t

  -- What is known of one server.
  pub record NodeInv (s : Cluster) (i : ℤ) (cm : ConsensusModule) : Type 0 where
    pub is_id : cm.id ≡ i
    pub peers : cm.peer_ids ≡ others i members
    pub own : is_settled cm.state ≡ false → cm.voted_for ≡ i
    pub ran : is_settled cm.state ≡ false → In (i, i, cm.current_term) s.votes
    pub firm : (c t : ℤ) → In (i, c, t) s.votes → Firm s.led i cm c t
    pub twice :
        (c c' t : ℤ) → In (i, c, t) s.votes → In (i, c', t) s.votes → Consistent s.led i cm c c' t
    pub leads : is_leader cm.state ≡ true → In (i, cm.current_term) s.led

  pub record Inv (s : Cluster) : Type 0 where
    pub nodes : (i : ℤ) → NodeInv s i (s.node i)
    pub known : (q c t : ℤ) → In (q, c, t) s.votes → In c members
    pub fair : (c t : ℤ) → Fair s.votes c t (s.counted c t)
    pub wins : (c t : ℤ) → In (c, t) s.led → Won s.votes c t
    pub mail : (req : AppendEntriesRequest) → In req s.sent → In (req.leader_id, req.term) s.led
    pub unique : (c c' t : ℤ) → In (c, t) s.led → In (c', t) s.led → c ≡ c'

pub Fair-new :
    (members : List ℤ) (votes : List (ℤ × ℤ × ℤ)) (c t : ℤ) → Fair members votes c t new_count
Fair-new members votes c t = record {
  alone = tt;
  tally = λ p h. absurd h;
  sum = refl;
  ready = λ h. absurd (ground (arith, h));
}

pub Fair-more :
    (members : List ℤ) (votes : List (ℤ × ℤ × ℤ)) (v : ℤ × ℤ × ℤ) (c t : ℤ) (count : Count)
    → Fair members votes c t count
    → Fair members (v ∷ votes) c t count
Fair-more members votes v c t count f = record {
  alone = f.alone;
  tally = λ p h. let (m, other, given) = f.tally p h in (m, other, inr given);
  sum = f.sum;
  ready = λ h.
      let (voters, d, each, most) = f.ready h in
      (voters, d, λ q k. let (m, given) = each q k in (m, inr given), most);
}

-- A property of all servers after one of them has changed.
pub update_all :
    (P : ℤ → ConsensusModule → Type 0) (q : ℤ) (cm : ConsensusModule) (node : ℤ → ConsensusModule)
    → P q cm
    → ((i : ℤ) → i ≢ q → P i (node i))
    → (i : ℤ) → P i (update q cm node i)
update_all P q cm node new old i = elim (Bool-cases (beq_ℤ i q)) [
  | inl same ↦
      let e : i ≡ q = (beq_ℤ_iff i q).0 same in
      let at : update q cm node i ≡ cm = ground (arith, same) in
      subst (P i) (sym at) (subst (λ j. P j cm) (sym e) new)
  | inr other ↦
      let at : update q cm node i ≡ node i = ground (arith, other) in
      subst (P i) (sym at) (old i (λ e. absurd (ground (arith, other, beq_ℤ_iff i q))))
]

module _ (members : List ℤ) (s : Cluster) (q : ℤ) (cm cm' : ConsensusModule) where
  OutOf-Plain : (t : ℤ) → Plain cm cm' → OutOf cm t → OutOf cm' t
  OutOf-Plain t p (inl past) = inl (omega (arith, p.grows))
  OutOf-Plain t p (inr (at, settled)) = ground (arith, p.grows, p.stays)

  Firm-Plain : (c t : ℤ) → Plain cm cm' → Firm s.led q cm c t → Firm s.led q cm' c t
  Firm-Plain c t p (inl past) = inl (omega (arith, p.grows))
  Firm-Plain c t p (inr (at, how)) = elim (Bool-cases (ltb_ℤ cm.current_term cm'.current_term)) [
    | inl later ↦ inl (ground arith)
    | inr still ↦
        let same : cm'.current_term ≡ cm.current_term =
          eq_of_parts cm'.current_term cm.current_term (ground (arith, p.grows)) in
        inr (
          same ∙ at,
          elim how [
            | inl (voted, role) ↦ inl (
              p.same_vote same ∙ voted,
              elim role [ inl settled ↦ inl (p.stays same settled) | inr self ↦ inr self ],
            )
            | inr (self, settled, deposed) ↦ inr (self, p.stays same settled, deposed)
          ],
        )
  ]

  pub NodeInv-Plain : Plain cm cm' → NodeInv members s q cm → NodeInv members s q cm'
  NodeInv-Plain p n = record {
    is_id = p.same_id ∙ n.is_id;
    peers = p.same_peers ∙ n.peers;
    own = λ h. let (before, same) = p.came_from h in p.same_vote same ∙ n.own before;
    ran = λ h.
        let (before, same) = p.came_from h in
        subst (λ t. In (q, q, t) s.votes) (sym same) (n.ran before);
    firm = λ c t v. Firm-Plain c t p (n.firm c t v);
    twice = λ c c' t v v'. elim (n.twice c c' t v v') [
      | inl same ↦ inl same
      | inr (deposed, self, out) ↦ inr (deposed, self, OutOf-Plain t p out)
    ];
    leads = λ h.
        let was = p.led_before h in
        let same : cm'.current_term ≡ cm.current_term = ground (arith, p.came_from) in
        subst (λ t. In (q, t) s.led) (sym same) (n.leads was);
  }

-- A server that does not vote keeps what is known of it when votes and leaders are added.
pub NodeInv-moved :
    (members : List ℤ) (s s' : Cluster) (i : ℤ) (cm : ConsensusModule)
    → ((c t : ℤ) → In (i, c, t) s'.votes → In (i, c, t) s.votes)
    → ((v : ℤ × ℤ × ℤ) → In v s.votes → In v s'.votes)
    → ((l : ℤ × ℤ) → In l s.led → In l s'.led)
    → NodeInv members s i cm
    → NodeInv members s' i cm
NodeInv-moved members s s' i cm back on more n = record {
  is_id = n.is_id;
  peers = n.peers;
  own = n.own;
  ran = λ h. on (i, i, cm.current_term) (n.ran h);
  firm = λ c t h. elim (n.firm c t (back c t h)) [
    | inl past ↦ inl past
    | inr (at, how) ↦ inr (
      at,
      elim how [
        | inl force ↦ inl force
        | inr (self, settled, (w, other, led)) ↦ inr (self, settled, (w, other, more (w, t) led))
      ],
    )
  ];
  twice = λ c c' t h h'. elim (n.twice c c' t (back c t h) (back c' t h')) [
    | inl same ↦ inl same
    | inr ((w, other, led), self, out) ↦ inr ((w, other, more (w, t) led), self, out)
  ];
  leads = λ h. more (i, cm.current_term) (n.leads h);
}

-- A server whose step is plain keeps the invariant.
pub Inv-Plain :
    (members : List ℤ) (s : Cluster) (q : ℤ) (cm' : ConsensusModule)
    → Plain (s.node q) cm'
    → Inv members s
    → Inv members (set_node q cm' s)
Inv-Plain members s q cm' p inv = record {
  nodes =
      update_all (NodeInv members (set_node q cm' s)) q cm' s.node
        (unmoved q cm' (NodeInv-Plain members s q (s.node q) cm' p (inv.nodes q)))
        (λ i other. unmoved i (s.node i) (inv.nodes i));
  known = inv.known;
  fair = inv.fair;
  wins = inv.wins;
  mail = inv.mail;
  unique = inv.unique;
}
  where
    unmoved :
        (i : ℤ) (cm : ConsensusModule)
        → NodeInv members s i cm
        → NodeInv members (set_node q cm' s) i cm
    unmoved i cm n =
        NodeInv-moved members s (set_node q cm' s) i cm (λ c t h. h) (λ v h. h) (λ l h. h) n

-- The log of a term's leader, and the requests that are sent, are not part of elections.
pub Inv-history :
    (members : List ℤ) (s : Cluster) (logs : ℤ → List LogEntry)
    → Inv members s
    → Inv members (record s { leader_log = logs })
Inv-history members s logs inv = record {
  nodes = λ i.
      NodeInv-moved members s (record s { leader_log = logs }) i (s.node i) (λ c t h. h) (λ v h. h)
        (λ l h. h) (inv.nodes i);
  known = inv.known;
  fair = inv.fair;
  wins = inv.wins;
  mail = inv.mail;
  unique = inv.unique;
}

pub Inv-sent :
    (members : List ℤ) (s : Cluster) (req : AppendEntriesRequest)
    → In (req.leader_id, req.term) s.led
    → Inv members s
    → Inv members (record s { sent = req ∷ s.sent })
Inv-sent members s req led inv = record {
  nodes = λ i.
      NodeInv-moved members s (record s { sent = req ∷ s.sent }) i (s.node i) (λ c t h. h)
        (λ v h. h) (λ l h. h) (inv.nodes i);
  known = inv.known;
  fair = inv.fair;
  wins = inv.wins;
  unique = inv.unique;
  mail = λ r h. elim h [
    | inl same ↦ subst (λ (x : AppendEntriesRequest). In (x.leader_id, x.term) s.led) (sym same) led
    | inr old ↦ inv.mail r old
  ];
}
