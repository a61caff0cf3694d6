-- ===== src/Raft/Cluster/Starting.antt =====
-- A server that starts to lead, and entries that reach a server, keep the invariant of a cluster.
use advanced_group_chat_syst.Base.{
  ℕ, ℤ, ◌<ℤ◌, true, false, ◌≡◌, ◌≢◌, inl, inr, refl, sym, ap, ◌∙◌, subst, List, In, shared_member,
  ok, arith,
}
use advanced_group_chat_syst.Pb.{AppendEntriesRequest}
use advanced_group_chat_syst.Raft.State.{ConsensusModule, is_candidate, int_eq}
use advanced_group_chat_syst.Raft.Vote.{start_leader}
use advanced_group_chat_syst.Raft.System.{entries_received, step}
use advanced_group_chat_syst.Raft.Cluster.{Cluster, set_node, first_start}
use advanced_group_chat_syst.Raft.Cluster.Plain.{is_settled, SteppedDown, delivered-cases}
use advanced_group_chat_syst.Raft.Cluster.Invariant.{
  OutOf, Won, NodeInv, Inv, update_all, NodeInv-moved, Inv-Plain,
}

module _ (members : List ℤ) (s : Cluster) (c : ℤ) (runs : is_candidate (s.node c).state ≡ true)
    (inv : Inv members s) where
  abbrev pub term : ℤ
  term = (s.node c).current_term

  pub unsettled : is_settled (s.node c).state ≡ false
  unsettled = ground (arith, runs)

  -- No other server has led in the term.
  pub first : Won members s.votes c term → (d : ℤ) → In (d, term) s.led → d ≡ c
  first (voters, each_once, each, most) d led =
      let (voters', each_once', each', most') = inv.wins d term led in
      let (q, mine, its) =
        shared_member voters voters' members each_once each_once' (λ a h. (each a h).0)
          (λ a h. (each' a h).0) (omega arith) in
      elim ((inv.nodes q).twice d c term (each' q its).1 (each q mine).1) [
        | inl same ↦ same
        | inr ((w, other, led_too), self, out) ↦
            let w_is_d : w ≡ d = inv.unique w d term led_too led in
            elim self [
              | inl d_is_q ↦ absurd (other (w_is_d ∙ d_is_q))
              | inr c_is_q ↦ absurd (
                  subst (λ x. OutOf (s.node x) term → ⊥) c_is_q (λ o. ground (arith, unsettled))
                    out)
            ]
      ]

  abbrev pub started : Cluster
  started = first_start c s

  started-NodeInv : NodeInv members started c (start_leader (s.node c)).0
  unfolding start_leader
  started-NodeInv =
      let n = inv.nodes c in
      record {
        is_id = n.is_id;
        peers = n.peers;
        own = λ h. n.own unsettled;
        ran = λ h. n.ran unsettled;
        firm = λ d t v. elim (n.firm d t v) [
          | inl past ↦ inl past
          | inr (at, how) ↦ inr (
            at,
            elim how [
              | inl (voted, role) ↦ inl (
                voted,
                elim role [
                  | inl settled ↦ absurd (ground (arith, unsettled))
                  | inr self ↦ inr self
                ],
              )
              | inr (self, settled, deposed) ↦ absurd (ground (arith, unsettled))
            ],
          )
        ];
        twice = λ d d' t v v'. elim (n.twice d d' t v v') [
          | inl same ↦ inl same
          | inr ((w, other, led), self, out) ↦ inr (
            (w, other, inr led),
            self,
            elim out [
              | inl past ↦ inl past
              | inr (at, settled) ↦ absurd (ground (arith, unsettled))
            ],
          )
        ];
        leads = λ h. inl refl;
      }

  pub started-Inv : Won members s.votes c term → Inv members (first_start c s)
  started-Inv w = record {
    nodes =
        update_all (NodeInv members started) c (start_leader (s.node c)).0 s.node started-NodeInv
          (λ i other.
            NodeInv-moved members s started i (s.node i) (λ d t h. h) (λ v h. h) (λ l h. inr h)
              (inv.nodes i));
    known = inv.known;
    fair = inv.fair;
    wins = λ d t h. elim h [
      | inl new ↦ rw (ap (λ l. l.0) new, ap (λ l. l.1) new) w
      | inr old ↦ inv.wins d t old
    ];
    mail = λ req h. inr (inv.mail req h);
    unique = λ d d' t h h'. elim h [
      | inl new ↦ elim h' [
        | inl new' ↦ ap (λ l. l.0) new ∙ sym (ap (λ l. l.0) new')
        | inr old' ↦
            ap (λ l. l.0) new
            ∙ sym (first w d' (subst (λ x. In (d', x) s.led) (ap (λ l. l.1) new) old'))
      ]
      | inr old ↦ elim h' [
        | inl new' ↦
            first w d (subst (λ x. In (d, x) s.led) (ap (λ l. l.1) new') old)
            ∙ sym (ap (λ l. l.0) new')
        | inr old' ↦ inv.unique d d' t old old'
      ]
    ];
  }

module _ (members : List ℤ) (s : Cluster) (p l t : ℤ) (cm cm' : ConsensusModule) (apart : p ≢ l)
    (led : In (l, t) s.led) (down : SteppedDown cm cm' t) (n : NodeInv members s p cm) where
  quiet : is_settled cm'.state ≡ true
  quiet = ground (arith, down)

  down-NodeInv : NodeInv members s p cm'
  down-NodeInv =
      let (i, ps, at_t, same, running, f) = down in
      record {
        is_id = i ∙ n.is_id;
        peers = ps ∙ n.peers;
        own = λ h. absurd (ground (arith, quiet));
        ran = λ h. absurd (ground (arith, quiet));
        firm = λ d u v. elim (n.firm d u v) [
          | inl past ↦ inl (subst (λ x. u <ℤ x) (sym same) past)
          | inr (at, how) ↦ inr (
            same ∙ at,
            elim how [
              | inl (voted, role) ↦ elim role [
                | inl settled ↦ absurd (ground (arith, running))
                | inr self ↦ inr (
                  self,
                  quiet,
                  (l, λ e. apart (sym e), subst (λ x. In (l, x) s.led) (sym at_t ∙ at) led),
                )
              ]
              | inr (self, settled, deposed) ↦ inr (self, quiet, deposed)
            ],
          )
        ];
        twice = λ d d' u v v'. elim (n.twice d d' u v v') [
          | inl agree ↦ inl agree
          | inr (deposed, self, out) ↦ inr (
            deposed,
            self,
            elim out [
              | inl past ↦ inl (subst (λ x. u <ℤ x) (sym same) past)
              | inr (at, settled) ↦ inr (same ∙ at, quiet)
            ],
          )
        ];
        leads = λ h. absurd (ground (arith, quiet));
      }

-- Entries of a server that has led in the term that they bear.
pub delivered-Inv :
    (members : List ℤ) (s : Cluster) (p : ℤ) (now : ℕ) (req : AppendEntriesRequest)
    (cm : ConsensusModule)
    → p ≢ req.leader_id
    → In (req.leader_id, req.term) s.led
    → step (entries_received now req) (s.node p) ≡ ok cm
    → Inv members s
    → Inv members (set_node p cm s)
delivered-Inv members s p now req cm apart led h inv =
    elim (delivered-cases now req (s.node p) cm h) [
      | inl plain ↦ Inv-Plain members s p cm plain inv
      | inr down ↦ record {
        nodes =
            update_all (NodeInv members (set_node p cm s)) p cm s.node
              (unmoved p cm (
                down-NodeInv members s p req.leader_id req.term (s.node p) cm apart led down
                  (inv.nodes p)))
              (λ i other. unmoved i (s.node i) (inv.nodes i));
        known = inv.known;
        fair = inv.fair;
        wins = inv.wins;
        mail = inv.mail;
        unique = inv.unique;
      }
    ]
  where
    unmoved :
        (i : ℤ) (m : ConsensusModule)
        → NodeInv members s i m
        → NodeInv members (set_node p cm s) i m
    unmoved i m n =
        NodeInv-moved members s (set_node p cm s) i m (λ c t h. h) (λ v h. h) (λ l h. h) n
