-- ===== src/Raft/Cluster/Plain.antt =====
-- Steps of a module that keep its part in the elections of its term.
use advanced_group_chat_syst.Base.{
  ℕ, ℤ, minus_one, eq_of_parts, ltb_ℤ, ◌<ℤ◌, ◌≤ℤ◌, Bool, true, false, ◌||◌, ◌≡◌, ◌⊎◌, inl, inr,
  refl, List, ok, Result-cases, slot_after, if◌then◌else◌, arith,
}
use advanced_group_chat_syst.Pb.{
  LogEntry, RequestVoteRequest, RequestVoteResponse, AppendEntriesRequest, AppendEntriesResponse,
}
use advanced_group_chat_syst.Raft.State.{
  CmState, ConsensusModule, is_follower, is_dead, is_leader, is_candidate, become_follower, stop,
}
use advanced_group_chat_syst.Raft.Vote.{start_leader, request_vote_helper, vote_reply}
use advanced_group_chat_syst.Raft.Append.{append_entries_helper}
use advanced_group_chat_syst.Raft.Leader.{
  submit, forward_leader_helper, forward_reply, append_reply,
}
use advanced_group_chat_syst.Raft.Apply.{commit_chan_sender}
use advanced_group_chat_syst.Raft.System.{
  Event, vote_requested, entries_received, timer_ticked, vote_replied, leader_started,
  entries_replied, command_submitted, command_forwarded, forward_replied, entries_applied, stopped,
  step,
}
use advanced_group_chat_syst.Raft.Cluster.{IsLocal, IsCommand, IsTimely}

-- Neither a candidate nor a leader.
abbrev pub is_settled : CmState → Bool
is_settled state = is_follower state || is_dead state

-- The term does not fall; in the same term the vote stays, and a settled server stays settled; and
-- who is not settled was not before, in the same term and with the same vote.
pub record Plain (cm cm' : ConsensusModule) : Type 0 where
  pub same_id : cm'.id ≡ cm.id
  pub same_peers : cm'.peer_ids ≡ cm.peer_ids
  pub grows : cm.current_term ≤ℤ cm'.current_term
  pub same_vote : cm'.current_term ≡ cm.current_term → cm'.voted_for ≡ cm.voted_for
  pub stays :
      cm'.current_term ≡ cm.current_term → is_settled cm.state ≡ true → is_settled cm'.state ≡ true
  pub came_from :
      is_settled cm'.state ≡ false
      → (is_settled cm.state ≡ false) × (cm'.current_term ≡ cm.current_term)
  pub led_before : is_leader cm'.state ≡ true → is_leader cm.state ≡ true
  pub ran_before : is_candidate cm'.state ≡ true → is_candidate cm.state ≡ true

pub Plain-refl : (cm : ConsensusModule) → Plain cm cm
Plain-refl cm = record {
  same_id = refl;
  same_peers = refl;
  grows = omega arith;
  same_vote = λ _. refl;
  stays = λ _ h. h;
  came_from = λ h. (h, refl);
  led_before = λ h. h;
  ran_before = λ h. h;
}

-- A module that has adopted a greater term.
abbrev Adopted : ConsensusModule → ConsensusModule → Type 0
Adopted cm cm' =
    (cm'.id ≡ cm.id)
    × (cm'.peer_ids ≡ cm.peer_ids)
    × (cm.current_term <ℤ cm'.current_term)
    × (is_follower cm'.state ≡ true)

Adopted-Plain : (cm cm' : ConsensusModule) → Adopted cm cm' → Plain cm cm'
Adopted-Plain cm cm' (i, p, lt, f) = record {
  same_id = i;
  same_peers = p;
  grows = omega arith;
  same_vote = λ e. absurd (ground arith);
  stays = λ e s. ground arith;
  came_from = λ s. absurd (ground arith);
  led_before = λ s. absurd (ground arith);
  ran_before = λ s. absurd (ground arith);
}

-- A change that keeps the fields of elections.
abbrev SameRole : ConsensusModule → ConsensusModule → Type 0
SameRole cm cm' =
    (cm'.id ≡ cm.id)
    × (cm'.peer_ids ≡ cm.peer_ids)
    × (cm'.current_term ≡ cm.current_term)
    × (cm'.voted_for ≡ cm.voted_for)
    × ((cm'.state ≡ cm.state) ⊎ (is_dead cm'.state ≡ true))

SameRole-Plain : (cm cm' : ConsensusModule) → SameRole cm cm' → Plain cm cm'
SameRole-Plain cm cm' (i, p, t, v, s) = record {
  same_id = i;
  same_peers = p;
  grows = ground arith;
  same_vote = λ _. v;
  stays = λ _ h. ground arith;
  came_from = λ h. ground arith;
  led_before = λ h. ground arith;
  ran_before = λ h. ground arith;
}

either_Plain : (cm cm' : ConsensusModule) → SameRole cm cm' ⊎ Adopted cm cm' → Plain cm cm'
either_Plain cm cm' (inl h) = SameRole-Plain cm cm' h
either_Plain cm cm' (inr h) = Adopted-Plain cm cm' h

reply_role :
    (now : ℕ) (peer saved next : ℤ) (es : List LogEntry) (reply : AppendEntriesResponse)
    (cm cm' : ConsensusModule)
    → step (entries_replied now peer saved next es reply) cm ≡ ok cm'
    → SameRole cm cm' ⊎ Adopted cm cm'
unfolding step append_reply
reply_role now peer saved next es reply cm cm' s = ground arith

apply_role :
    (cm cm' : ConsensusModule) → step entries_applied cm ≡ ok cm' → SameRole cm cm' ⊎ Adopted cm cm'
unfolding step commit_chan_sender
apply_role cm cm' h = elim (Result-cases (slot_after cm.last_applied)) [
  | inl bad ↦ ground (arith, bad)
  | inr (lo, at) ↦ elim (Result-cases (slot_after cm.commit_index)) [
    | inl bad ↦ ground (arith, at, bad)
    | inr (hi, to) ↦ ground (arith, at, to)
  ]
]

local_role :
    (e : Event) (cm cm' : ConsensusModule)
    → IsLocal e
    → step e cm ≡ ok cm'
    → SameRole cm cm' ⊎ Adopted cm cm'
unfolding step
local_role (vote_requested now req) cm cm' l s = absurd l
local_role (entries_received now req) cm cm' l s = absurd l
local_role (timer_ticked timeout now started) cm cm' l s = absurd l
local_role (vote_replied now saved reply votes) cm cm' l s = absurd l
local_role leader_started cm cm' l s = absurd l
local_role (entries_replied now peer saved next es reply) cm cm' l s =
    reply_role now peer saved next es reply cm cm' s
local_role (command_submitted c) cm cm' l s = absurd l
local_role (command_forwarded c) cm cm' l s = absurd l
local_role (forward_replied c reply) cm cm' l s = unfold forward_reply in ground arith
local_role entries_applied cm cm' l s = apply_role cm cm' s
local_role stopped cm cm' l s = unfold stop in ground arith

command_role :
    (e : Event) (cm cm' : ConsensusModule)
    → IsCommand e
    → step e cm ≡ ok cm'
    → SameRole cm cm' ⊎ Adopted cm cm'
unfolding step
command_role (command_submitted c) cm cm' l s = unfold submit in ground arith
command_role (command_forwarded c) cm cm' l s = unfold forward_leader_helper in ground arith
command_role (vote_requested now req) cm cm' l s = absurd l
command_role (entries_received now req) cm cm' l s = absurd l
command_role (timer_ticked timeout now started) cm cm' l s = absurd l
command_role (vote_replied now saved reply votes) cm cm' l s = absurd l
command_role leader_started cm cm' l s = absurd l
command_role (entries_replied now peer saved next es reply) cm cm' l s = absurd l
command_role (forward_replied c reply) cm cm' l s = absurd l
command_role entries_applied cm cm' l s = absurd l
command_role stopped cm cm' l s = absurd l

pub command-Plain :
    (e : Event) (cm cm' : ConsensusModule) → IsCommand e → step e cm ≡ ok cm' → Plain cm cm'
command-Plain e cm cm' l s = either_Plain cm cm' (command_role e cm cm' l s)

pub local-Plain :
    (e : Event) (cm cm' : ConsensusModule) → IsLocal e → step e cm ≡ ok cm' → Plain cm cm'
local-Plain e cm cm' l s = either_Plain cm cm' (local_role e cm cm' l s)

answer_role :
    (now : ℕ) (t : ℤ) (reply : RequestVoteResponse) (votes : ℕ) (cm : ConsensusModule)
    → IsTimely t reply cm
    → let cm' = (vote_reply now t reply votes cm).0 in SameRole cm cm' ⊎ Adopted cm cm'
unfolding vote_reply
answer_role now t reply votes cm timely = ground arith

pub answer-Plain :
    (now : ℕ) (t : ℤ) (reply : RequestVoteResponse) (votes : ℕ) (cm : ConsensusModule)
    → IsTimely t reply cm
    → Plain cm (vote_reply now t reply votes cm).0
answer-Plain now t reply votes cm timely =
    either_Plain cm (vote_reply now t reply votes cm).0 (answer_role now t reply votes cm timely)

-- A server that leads already, and starts to lead again.
again_role :
    (cm : ConsensusModule)
    → is_leader cm.state ≡ true
    → SameRole cm (start_leader cm).0 ⊎ Adopted cm (start_leader cm).0
unfolding start_leader
again_role cm leads = ground arith

pub again-Plain : (cm : ConsensusModule) → is_leader cm.state ≡ true → Plain cm (start_leader cm).0
again-Plain cm leads = either_Plain cm (start_leader cm).0 (again_role cm leads)

-- A vote request that is refused, and the state in which a granted one finds the server.
pub record Granting (cm cm' : ConsensusModule) (c t : ℤ) : Type 0 where
  pub before : ConsensusModule
  pub plain : Plain cm before
  pub in_term : before.current_term ≡ t
  pub free : (before.voted_for ≡ minus_one) ⊎ (before.voted_for ≡ c)
  pub same_id : cm'.id ≡ before.id
  pub same_peers : cm'.peer_ids ≡ before.peer_ids
  pub same_term : cm'.current_term ≡ before.current_term
  pub same_state : cm'.state ≡ before.state
  pub voted : cm'.voted_for ≡ c

refused_role :
    (now : ℕ) (req : RequestVoteRequest) (cm : ConsensusModule)
    → (request_vote_helper now req cm).1.vote_granted ≡ false
    → let cm' = (request_vote_helper now req cm).0 in SameRole cm cm' ⊎ Adopted cm cm'
unfolding request_vote_helper
refused_role now req cm h = ground arith

pub refused-Plain :
    (now : ℕ) (req : RequestVoteRequest) (cm : ConsensusModule)
    → (request_vote_helper now req cm).1.vote_granted ≡ false
    → Plain cm (request_vote_helper now req cm).0
refused-Plain now req cm h =
    either_Plain cm (request_vote_helper now req cm).0 (refused_role now req cm h)

abbrev adopted : ℕ → RequestVoteRequest → ConsensusModule → ConsensusModule
adopted now req cm =
    if ltb_ℤ cm.current_term req.term then (become_follower now req.term cm).0 else cm

adopted_role :
    (now : ℕ) (req : RequestVoteRequest) (cm : ConsensusModule)
    → SameRole cm (adopted now req cm) ⊎ Adopted cm (adopted now req cm)
unfolding become_follower
adopted_role now req cm = ground arith

granted_facts :
    (now : ℕ) (req : RequestVoteRequest) (cm : ConsensusModule)
    → (request_vote_helper now req cm).1.vote_granted ≡ true
    → let cm' = (request_vote_helper now req cm).0 in
      let cm1 = adopted now req cm in
      (cm1.current_term ≡ req.term)
      × ((cm1.voted_for ≡ minus_one) ⊎ (cm1.voted_for ≡ req.candidate_id))
      × (cm'.id ≡ cm1.id)
      × (cm'.peer_ids ≡ cm1.peer_ids)
      × (cm'.current_term ≡ cm1.current_term)
      × (cm'.state ≡ cm1.state)
      × (cm'.voted_for ≡ req.candidate_id)
unfolding request_vote_helper
granted_facts now req cm h = ground (
  arith,
  eq_of_parts cm.current_term req.term,
  eq_of_parts cm.voted_for minus_one,
  eq_of_parts cm.voted_for req.candidate_id,
)

pub granted-Granting :
    (now : ℕ) (req : RequestVoteRequest) (cm : ConsensusModule)
    → (request_vote_helper now req cm).1.vote_granted ≡ true
    → Granting cm (request_vote_helper now req cm).0 req.candidate_id req.term
granted-Granting now req cm h =
    let (t, free, i, p, ct, st, v) = granted_facts now req cm h in
    record {
      before = adopted now req cm;
      plain = either_Plain cm (adopted now req cm) (adopted_role now req cm);
      in_term = t;
      free = free;
      same_id = i;
      same_peers = p;
      same_term = ct;
      same_state = st;
      voted = v;
    }

-- A candidate or leader that steps down for the leader of its own term.
abbrev pub SteppedDown : ConsensusModule → ConsensusModule → ℤ → Type 0
SteppedDown cm cm' t =
    (cm'.id ≡ cm.id)
    × (cm'.peer_ids ≡ cm.peer_ids)
    × (cm.current_term ≡ t)
    × (cm'.current_term ≡ cm.current_term)
    × (is_settled cm.state ≡ false)
    × (is_follower cm'.state ≡ true)

delivered_role :
    (now : ℕ) (req : AppendEntriesRequest) (cm cm' : ConsensusModule)
    → step (entries_received now req) cm ≡ ok cm'
    → SameRole cm cm' ⊎ (Adopted cm cm' ⊎ SteppedDown cm cm' req.term)
unfolding step append_entries_helper
delivered_role now req cm cm' s = ground (arith, eq_of_parts cm.current_term req.term)

pub delivered-cases :
    (now : ℕ) (req : AppendEntriesRequest) (cm cm' : ConsensusModule)
    → step (entries_received now req) cm ≡ ok cm'
    → Plain cm cm' ⊎ SteppedDown cm cm' req.term
delivered-cases now req cm cm' s = elim (delivered_role now req cm cm' s) [
  | inl same ↦ inl (SameRole-Plain cm cm' same)
  | inr other ↦ elim other [ inl a ↦ inl (Adopted-Plain cm cm' a) | inr d ↦ inr d ]
]
