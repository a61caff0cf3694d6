-- ===== src/Raft/Cluster/LogEvents.antt =====
-- What each handler of a module does to its log and to its place in its term.
use advanced_group_chat_syst.Base.{
  ℕ, suc, ◌+◌, ◌<◌, ◌^◌, ℤ, pos_part, InRange64, lt-add64_one, ◌≤ℤ◌, true, false, ◌≡◌, ◌⊎◌, inl,
  inr, refl, ap, ◌∙◌, subst, List, [], ◌∷◌, ◌++◌, take, drop, take-append-drop, Option, Result, ok,
  Result-cases, Bool-cases, slot_after, eq_of_ok, ◌>>=◌, beq_ℤ, beq_ℤ_iff, arith,
}
use advanced_group_chat_syst.Pb.{
  Command, LogEntry, RequestVoteRequest, RequestVoteResponse, AppendEntriesRequest,
  AppendEntriesResponse,
}
use advanced_group_chat_syst.Raft.State.{
  ConsensusModule, Effect, is_leader, is_candidate, is_dead, stop,
}
use advanced_group_chat_syst.Raft.Vote.{
  start_leader, request_vote_helper, vote_reply, tick_election_timer,
}
use advanced_group_chat_syst.Raft.Append.{append_entries_helper}
use advanced_group_chat_syst.Raft.Append.Merge.{merge, merged}
use advanced_group_chat_syst.Raft.Append.MergeLaws.{Determined}
use advanced_group_chat_syst.Raft.Append.Accepted.{Accepted, accepted, HasPrev}
use advanced_group_chat_syst.Raft.Leader.{
  submit, forward_leader_helper, forward_reply, append_reply,
}
use advanced_group_chat_syst.Raft.Leader.Delivery.{
  LogMatching, matching-Determined, prefix_of_HasPrev,
}
use advanced_group_chat_syst.Raft.Apply.{commit_chan_sender}
use advanced_group_chat_syst.Raft.System.{
  Event, vote_requested, entries_received, timer_ticked, vote_replied, leader_started,
  entries_replied, command_submitted, command_forwarded, forward_replied, entries_applied, stopped,
  step,
}
use advanced_group_chat_syst.Raft.Cluster.{IsLocal, IsCommand, IsTimely}

-- The log stays, the term does not fall, who leads then led before in that term, and who was no
-- candidate does not become one in the term.
pub record KeepsPlace (cm cm' : ConsensusModule) : Type 0 where
  pub grows : cm.current_term ≤ℤ cm'.current_term
  pub leads_on :
      is_leader cm'.state ≡ true
      → (is_leader cm.state ≡ true) × (cm'.current_term ≡ cm.current_term)
  pub none_new :
      cm'.current_term ≡ cm.current_term
      → is_candidate cm.state ≡ false
      → is_candidate cm'.state ≡ false

pub reply-KeepsPlace :
    (now : ℕ) (peer saved next : ℤ) (es : List LogEntry) (reply : AppendEntriesResponse)
    (cm cm' : ConsensusModule)
    → step (entries_replied now peer saved next es reply) cm ≡ ok cm'
    → KeepsPlace cm cm' × (cm'.log ≡ cm.log)
unfolding step append_reply
reply-KeepsPlace now peer saved next es reply cm cm' s = ground arith

apply-KeepsPlace :
    (cm cm' : ConsensusModule)
    → step entries_applied cm ≡ ok cm'
    → KeepsPlace cm cm' × (cm'.log ≡ cm.log)
unfolding step commit_chan_sender
apply-KeepsPlace cm cm' h = elim (Result-cases (slot_after cm.last_applied)) [
  | inl bad ↦ ground (arith, bad)
  | inr (lo, at) ↦ elim (Result-cases (slot_after cm.commit_index)) [
    | inl bad ↦ ground (arith, at, bad)
    | inr (hi, to) ↦ ground (arith, at, to)
  ]
]

pub local-KeepsPlace :
    (e : Event) (cm cm' : ConsensusModule)
    → IsLocal e
    → step e cm ≡ ok cm'
    → KeepsPlace cm cm' × (cm'.log ≡ cm.log)
unfolding step
local-KeepsPlace (vote_requested now req) cm cm' l s = absurd l
local-KeepsPlace (entries_received now req) cm cm' l s = absurd l
local-KeepsPlace (timer_ticked timeout now started) cm cm' l s = absurd l
local-KeepsPlace (vote_replied now saved reply votes) cm cm' l s = absurd l
local-KeepsPlace leader_started cm cm' l s = absurd l
local-KeepsPlace (command_submitted c) cm cm' l s = absurd l
local-KeepsPlace (command_forwarded c) cm cm' l s = absurd l
local-KeepsPlace (entries_replied now peer saved next es reply) cm cm' l s =
    reply-KeepsPlace now peer saved next es reply cm cm' s
local-KeepsPlace (forward_replied c reply) cm cm' l s = unfold forward_reply in ground arith
local-KeepsPlace entries_applied cm cm' l s = apply-KeepsPlace cm cm' s
local-KeepsPlace stopped cm cm' l s = unfold stop in ground arith

pub request-KeepsPlace :
    (now : ℕ) (req : RequestVoteRequest) (cm : ConsensusModule)
    → let cm' = (request_vote_helper now req cm).0 in KeepsPlace cm cm' × (cm'.log ≡ cm.log)
unfolding request_vote_helper
request-KeepsPlace now req cm = ground arith

pub answer-KeepsPlace :
    (now : ℕ) (t : ℤ) (reply : RequestVoteResponse) (votes : ℕ) (cm : ConsensusModule)
    → IsTimely t reply cm
    → let cm' = (vote_reply now t reply votes cm).0 in KeepsPlace cm cm' × (cm'.log ≡ cm.log)
unfolding vote_reply
answer-KeepsPlace now t reply votes cm timely = ground arith

pub again-KeepsPlace :
    (cm : ConsensusModule)
    → is_leader cm.state ≡ true
    → let cm' = (start_leader cm).0 in KeepsPlace cm cm' × (cm'.log ≡ cm.log)
unfolding start_leader
again-KeepsPlace cm leads = ground arith

pub tick-KeepsPlace :
    (timeout now : ℕ) (started : ℤ) (cm : ConsensusModule)
    → InRange64 cm.current_term
    → pos_part cm.current_term + 1 < 2 ^ 63
    → let cm' = (tick_election_timer timeout now started cm).1 in
      KeepsPlace cm cm' × (cm'.log ≡ cm.log)
unfolding tick_election_timer
tick-KeepsPlace timeout now started cm r room = ground (arith, lt-add64_one cm.current_term r room)

-- A command: the log of a leader is longer by an entry of its term, another's stays.
abbrev pub CommandTaken : ConsensusModule → ConsensusModule → Type 0
CommandTaken cm cm' =
    (cm'.current_term ≡ cm.current_term)
    × (cm'.state ≡ cm.state)
    × ((cm'.log ≡ cm.log)
        ⊎ ((is_leader cm.state ≡ true)
            × ((c : Option Command) × (cm'.log
                  ≡ cm.log ++ record { command = c; term = cm.current_term } ∷ []))))

submit-CommandTaken : (c : Option Command) (cm : ConsensusModule) → CommandTaken cm (submit c cm).0
unfolding submit
submit-CommandTaken c cm = elim (Bool-cases (is_leader cm.state)) [
  | inl leads ↦ rw leads (refl, refl, inr (refl, (c, refl)))
  | inr follows ↦ rw follows (refl, refl, inl refl)
]

forward-CommandTaken :
    (c : Option Command) (cm : ConsensusModule) → CommandTaken cm (forward_leader_helper c cm).0
unfolding forward_leader_helper
forward-CommandTaken c cm = elim (Bool-cases (is_dead cm.state)) [
  | inl dead ↦ rw dead (refl, refl, inl refl)
  | inr lives ↦ elim (Bool-cases (is_leader cm.state)) [
    | inl leads ↦ rw (lives, leads) (refl, refl, inr (refl, (c, refl)))
    | inr follows ↦ rw (lives, follows) (refl, refl, inl refl)
  ]
]

pub command-CommandTaken :
    (e : Event) (cm cm' : ConsensusModule) → IsCommand e → step e cm ≡ ok cm' → CommandTaken cm cm'
unfolding step
command-CommandTaken (command_submitted c) cm cm' l s =
    subst (CommandTaken cm) (eq_of_ok s) (submit-CommandTaken c cm)
command-CommandTaken (command_forwarded c) cm cm' l s =
    subst (CommandTaken cm) (eq_of_ok s) (forward-CommandTaken c cm)
command-CommandTaken (vote_requested now req) cm cm' l s = absurd l
command-CommandTaken (entries_received now req) cm cm' l s = absurd l
command-CommandTaken (timer_ticked timeout now started) cm cm' l s = absurd l
command-CommandTaken (vote_replied now saved reply votes) cm cm' l s = absurd l
command-CommandTaken leader_started cm cm' l s = absurd l
command-CommandTaken (entries_replied now peer saved next es reply) cm cm' l s = absurd l
command-CommandTaken (forward_replied c reply) cm cm' l s = absurd l
command-CommandTaken entries_applied cm cm' l s = absurd l
command-CommandTaken stopped cm cm' l s = absurd l

-- Received entries: the log stays, or the request was accepted.
pub received-KeepsPlace :
    (now : ℕ) (req : AppendEntriesRequest) (cm cm' : ConsensusModule)
    → step (entries_received now req) cm ≡ ok cm'
    → KeepsPlace cm cm'
unfolding step append_entries_helper
received-KeepsPlace now req cm cm' s = ground arith

pub refused_log :
    (now : ℕ) (req : AppendEntriesRequest) (cm cm' : ConsensusModule)
    (reply : AppendEntriesResponse) (es : List Effect)
    → append_entries_helper now req cm ≡ ok (cm', reply, es)
    → reply.success ≡ false
    → cm'.log ≡ cm.log
unfolding append_entries_helper
refused_log now req cm cm' reply es h r = ground arith

pub handled_by :
    (r : Result (ConsensusModule × AppendEntriesResponse × List Effect)) (cm' : ConsensusModule)
    → (do (x, _, _) ← r; ok x) ≡ ok cm'
    → (reply : AppendEntriesResponse) × (es : List Effect) × (r ≡ ok (cm', reply, es))
handled_by (Result.panic) cm' h = cc
handled_by (ok (x, reply, es)) cm' h = (reply, es, ap (λ y. ok (y, reply, es)) (eq_of_ok h))

pub received-cases :
    (now : ℕ) (req : AppendEntriesRequest) (cm cm' : ConsensusModule)
    → step (entries_received now req) cm ≡ ok cm'
    → (cm'.log ≡ cm.log) ⊎ Accepted req cm cm'
unfolding step
received-cases now req cm cm' s =
    let (reply, es, returned) = handled_by (append_entries_helper now req cm) cm' s in
    elim (Bool-cases reply.success) [
      | inl success ↦ inr (accepted now req cm cm' reply es returned success)
      | inr refused ↦ inl (refused_log now req cm cm' reply es returned refused)
    ]

-- Where the logs match, the merged log is one of the two.
merge-cases : (s es : List LogEntry) → Determined s es → (merge s es ≡ s) ⊎ (merge s es ≡ es)
unfolding merge
merge-cases [] es d = inr refl
merge-cases (f ∷ s) [] d = inl refl
merge-cases (f ∷ s) (e ∷ es) d = elim (Bool-cases (beq_ℤ f.term e.term)) [
  | inl same ↦
      let here : f ≡ e = d 0 f e refl refl ((beq_ℤ_iff f.term e.term).0 same) in
      elim (merge-cases s es (λ i g c. d (suc i) g c)) [
        | inl old ↦ inl (rw same (ap (λ l. f ∷ l) old))
        | inr new ↦ inr (rw same (ap (λ l. f ∷ l) new ∙ ap (λ x. x ∷ es) here))
      ]
  | inr other ↦ inr (rw other refl)
]

pub merged-cases :
    (n : ℕ) (t : ℤ) (xs ys : List LogEntry)
    → LogMatching xs ys
    → HasPrev n t xs
    → HasPrev n t ys
    → (merged n xs (drop n ys) ≡ xs) ⊎ (merged n xs (drop n ys) ≡ ys)
merged-cases n t xs ys matching h k =
    elim (merge-cases (drop n xs) (drop n ys) (matching-Determined xs ys matching n)) [
      | inl old ↦ inl (ap (λ l. take n xs ++ l) old ∙ take-append-drop n xs)
      | inr new ↦ inr (
          ap (λ l. take n xs ++ l) new
          ∙ ap (λ l. l ++ drop n ys) (prefix_of_HasPrev xs ys matching n t h k)
          ∙ take-append-drop n ys)
    ]
