-- ===== src/Raft/Cluster/Voting.antt =====
-- A tick of the election timer, with the vote of a new candidate for itself, keeps the invariant of a
-- cluster.
use advanced_group_chat_syst.Base.{
  ℕ, ◌+◌, ◌<◌, ℤ, beq_ℤ, ◌<ℤ◌, ◌≤ℤ◌, pos_part, InRange64, lt-add64_one, ◌^◌, Bool, true, false, ◌≡◌,
  ◌⊎◌, inl, inr, refl, sym, ap, ◌∙◌, subst, List, ◌∷◌, In, Bool-cases, if◌then◌else◌, ◌||◌, not,
  leb, ◌-◌, arith,
}
use advanced_group_chat_syst.Raft.State.{ConsensusModule, Effect, is_leader, is_dead, is_candidate}
use advanced_group_chat_syst.Raft.Vote.{
  TimerResult, keep_waiting, timer_ended, election_started, tick_election_timer,
}
use advanced_group_chat_syst.Raft.Cluster.{
  Count, new_count, Cluster, update, set_node, set_counted, after_tick,
}
use advanced_group_chat_syst.Raft.Cluster.Plain.{Plain, Plain-refl}
use advanced_group_chat_syst.Raft.Cluster.Invariant.{
  Firm, NodeInv, Inv, Fair, Fair-new, Fair-more, update_all, NodeInv-moved, Inv-Plain,
}

-- A cluster after a vote of `q`, whose new state is `cm`.
abbrev pub voted : ℤ → ℤ → ℤ → ConsensusModule → (ℤ → ℤ → Count) → Cluster → Cluster
voted q c t cm counted s = record s {
  node = update q cm s.node;
  counted = counted;
  votes = (q, c, t) ∷ s.votes;
}

-- A vote keeps the invariant if it keeps that of its server.
pub voted-Inv :
    (members : List ℤ) (q c t : ℤ) (cm : ConsensusModule) (counted : ℤ → ℤ → Count) (s : Cluster)
    → Inv members s
    → In c members
    → ((c' t' : ℤ) → (counted c' t' ≡ new_count) ⊎ (counted c' t' ≡ s.counted c' t'))
    → NodeInv members (voted q c t cm counted s) q cm
    → Inv members (voted q c t cm counted s)
voted-Inv members q c t cm counted s inv member kept new = record {
  nodes = update_all (NodeInv members (voted q c t cm counted s)) q cm s.node new (λ i other.
      NodeInv-moved members s (voted q c t cm counted s) i (s.node i)
        (λ c' t' h. elim h [ inl e ↦ absurd (other (ap (λ v. v.0) e)) | inr old ↦ old ])
        (λ v h. inr h) (λ l h. h) (inv.nodes i));
  known = λ q' c' t' h. elim h [
    | inl e ↦ subst (λ x. In x members) (sym (ap (λ v. v.1) e)) member
    | inr old ↦ inv.known q' c' t' old
  ];
  fair = λ c' t'. elim (kept c' t') [
    | inl fresh ↦
        subst (Fair members ((q, c, t) ∷ s.votes) c' t') (sym fresh)
          (Fair-new members ((q, c, t) ∷ s.votes) c' t')
    | inr same ↦
        subst (Fair members ((q, c, t) ∷ s.votes) c' t') (sym same)
          (Fair-more members s.votes (q, c, t) c' t' (s.counted c' t') (inv.fair c' t'))
  ];
  wins = λ c' t' h.
      let (voters, d, each, most) = inv.wins c' t' h in
      (voters, d, λ p k. let (m, v) = each p k in (m, inr v), most);
  mail = inv.mail;
  unique = inv.unique;
}

-- What an election makes of its candidate.
pub record Elected (cm cm' : ConsensusModule) : Type 0 where
  pub same_id : cm'.id ≡ cm.id
  pub same_peers : cm'.peer_ids ≡ cm.peer_ids
  pub grows : cm.current_term <ℤ cm'.current_term
  pub own : cm'.voted_for ≡ cm.id
  pub runs : is_candidate cm'.state ≡ true

firm_le :
    (led : List (ℤ × ℤ)) (q : ℤ) (cm : ConsensusModule) (c t : ℤ)
    → Firm led q cm c t
    → t ≤ℤ cm.current_term
firm_le led q cm c t (inl past) = omega arith
firm_le led q cm c t (inr (at, how)) = ground arith

Elected-NodeInv :
    (members : List ℤ) (s : Cluster) (i : ℤ) (cm cm' : ConsensusModule) (counted : ℤ → ℤ → Count)
    → Elected cm cm'
    → NodeInv members s i cm
    → NodeInv members (voted i i cm'.current_term cm' counted s) i cm'
Elected-NodeInv members s i cm cm' counted e n = record {
  is_id = e.same_id ∙ n.is_id;
  peers = e.same_peers ∙ n.peers;
  own = λ h. e.own ∙ n.is_id;
  ran = λ h. inl refl;
  firm = λ c t h. elim h [
    | inl new ↦ inr (
      sym (ap (λ v. v.2) new),
      inl (e.own ∙ n.is_id ∙ sym (ap (λ v. v.1) new), inr (ap (λ v. v.1) new)),
    )
    | inr old ↦ inl (before t (firm_le s.led i cm c t (n.firm c t old)))
  ];
  twice = λ c c' t h h'. elim h [
    | inl new ↦ elim h' [
      | inl new' ↦ inl (ap (λ v. v.1) new ∙ sym (ap (λ v. v.1) new'))
      | inr old ↦ absurd (never c' t (ap (λ v. v.2) new) old)
    ]
    | inr old ↦ elim h' [
      | inl new' ↦ absurd (never c t (ap (λ v. v.2) new') old)
      | inr old' ↦ elim (n.twice c c' t old old') [
        | inl same ↦ inl same
        | inr (deposed, self, out) ↦
            inr (deposed, self, inl (before t (firm_le s.led i cm c t (n.firm c t old))))
      ]
    ]
  ];
  leads = λ h. absurd (ground (arith, e.runs));
}
  where
    before : (t : ℤ) → t ≤ℤ cm.current_term → t <ℤ cm'.current_term
    before t h = omega (arith, e.grows)

    never : (c t : ℤ) → t ≡ cm'.current_term → In (i, c, t) s.votes → ⊥
    never c t same old = ground (arith, e.grows, firm_le s.led i cm c t (n.firm c t old))

-- A tick, by its result.
abbrev pub Ticked : ConsensusModule → TimerResult × ConsensusModule × List Effect → Type 0
Ticked cm (election_started, cm', _) = Elected cm cm'
Ticked cm (keep_waiting, cm', _) = cm' ≡ cm
Ticked cm (timer_ended, cm', _) = cm' ≡ cm

if-Ticked :
    (cm : ConsensusModule) (b : Bool) (x y : TimerResult × ConsensusModule × List Effect)
    → Ticked cm x
    → Ticked cm y
    → Ticked cm (if b then x else y)
if-Ticked cm true x y h k = h
if-Ticked cm false x y h k = k

pub tick-Ticked :
    (timeout now : ℕ) (started : ℤ) (cm : ConsensusModule)
    → InRange64 cm.current_term
    → pos_part cm.current_term + 1 < 2 ^ 63
    → Ticked cm (tick_election_timer timeout now started cm)
unfolding tick_election_timer
tick-Ticked timeout now started cm r room =
    if-Ticked cm (is_leader cm.state || is_dead cm.state) _ _ refl (
      if-Ticked cm (not (beq_ℤ started cm.current_term)) _ _ refl (
        if-Ticked cm (leb timeout (now - cm.election_reset_event)) _ _
          (record {
            same_id = refl;
            same_peers = refl;
            own = refl;
            runs = refl;
            grows = lt-add64_one cm.current_term r room;
          })
          refl))

Plain-same :
    (members : List ℤ) (s : Cluster) (i : ℤ) (cm : ConsensusModule)
    → cm ≡ s.node i
    → Inv members s
    → Inv members (set_node i cm s)
Plain-same members s i cm e inv =
    Inv-Plain members s i cm (subst (Plain (s.node i)) (sym e) (Plain-refl (s.node i))) inv

Ticked-by :
    (members : List ℤ) (s : Cluster) (i : ℤ) (x : TimerResult × ConsensusModule × List Effect)
    → In i members
    → Ticked (s.node i) x
    → Inv members s
    → Inv members (after_tick i x s)
Ticked-by members s i (keep_waiting, cm, es) m h inv = Plain-same members s i cm h inv
Ticked-by members s i (timer_ended, cm, es) m h inv = Plain-same members s i cm h inv
Ticked-by members s i (election_started, cm, es) m h inv =
    voted-Inv members i i cm.current_term cm (set_counted i cm.current_term new_count s.counted) s
      inv m cleared (Elected-NodeInv members s i (s.node i) cm _ h (inv.nodes i))
  where
    cleared :
        (c t : ℤ)
        → (set_counted i cm.current_term new_count s.counted c t ≡ new_count)
          ⊎ (set_counted i cm.current_term new_count s.counted c t ≡ s.counted c t)
    cleared c t = elim (Bool-cases (beq_ℤ c i)) [
      | inl same ↦ elim (Bool-cases (beq_ℤ t cm.current_term)) [
        | inl now ↦ rw (same, now) (inl refl)
        | inr other ↦ rw (same, other) (inr refl)
      ]
      | inr other ↦ rw other (inr refl)
    ]

-- A tick of a server whose elections do not overflow the term.
pub ticked-Inv :
    (members : List ℤ) (s : Cluster) (i : ℤ) (timeout now : ℕ) (started : ℤ)
    → In i members
    → InRange64 (s.node i).current_term
    → pos_part (s.node i).current_term + 1 < 2 ^ 63
    → Inv members s
    → Inv members (after_tick i (tick_election_timer timeout now started (s.node i)) s)
ticked-Inv members s i timeout now started m r room inv =
    Ticked-by members s i (tick_election_timer timeout now started (s.node i)) m
      (tick-Ticked timeout now started (s.node i) r room) inv
