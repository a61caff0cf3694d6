-- ===== src/Raft/Leader/Delivery.antt =====
-- A leader's request at a follower: what an accepted request leaves there, and what follows a refusal.
use advanced_group_chat_syst.Base.{
  ℕ, eq_of_parts, zero, suc, ◌+◌, ◌^◌, ◌≤◌, ◌<◌, ℤ, pos, beq_ℤ, ◌≤ℤ◌, ◌≡◌, refl, sym, ap, ◌∙◌, List,
  [], ◌++◌, length, get_elem?, take, drop, true, false, ok, some, subst, arith, Option-cases, inl,
  inr, Map, eq_of_some, minus_one, length-take, length-drop, take-append-drop, take-append_add,
  get_elem?-drop, get_elem?-take, insert, lookup-insert,
}
use advanced_group_chat_syst.Pb.{LogEntry, AppendEntriesRequest, AppendEntriesResponse}
use advanced_group_chat_syst.Raft.State.{
  ConsensusModule, Effect, read, is_leader, become_follower, is_dead, int_eq,
}
use advanced_group_chat_syst.Raft.Leader.{
  append_request, append_reply, next_after_refusal, last_index_of_term,
}
use advanced_group_chat_syst.Raft.Leader.Request.{Requested-from, request_from-zero, request_of}
use advanced_group_chat_syst.Raft.Append.{append_entries_helper}
use advanced_group_chat_syst.Raft.Append.Merge.{merged}
use advanced_group_chat_syst.Raft.Append.MergeLaws.{Determined, take-merge_new}
use advanced_group_chat_syst.Raft.Append.Accepted.{accepted, Start, HasPrev}
use advanced_group_chat_syst.Raft.Append.Outcome.{succeeded, succeeds_iff}

-- Raft's Log Matching: entries of one index and term come with the same log up to there.
abbrev pub LogMatching : List LogEntry → List LogEntry → Type 0
LogMatching xs ys =
    (i : ℕ) (x y : LogEntry)
    → get_elem? xs i ≡ some x
    → get_elem? ys i ≡ some y
    → x.term ≡ y.term
    → take (suc i) xs ≡ take (suc i) ys

module _ (xs ys : List LogEntry) (matching : LogMatching xs ys) where
  pub prefix_of_HasPrev : (n : ℕ) (t : ℤ) → HasPrev n t xs → HasPrev n t ys → take n xs ≡ take n ys
  prefix_of_HasPrev zero t h k = refl
  prefix_of_HasPrev (suc n) t (x, fx, tx) (y, fy, ty) = matching n x y fx fy (sym tx ∙ ty)

  pub matching-Determined : (n : ℕ) → Determined (drop n xs) (drop n ys)
  matching-Determined n i x y fx fy t =
      let fx' = sym (get_elem?-drop n xs i) ∙ fx in
      let fy' = sym (get_elem?-drop n ys i) ∙ fy in
      let same = matching (n + i) x y fx' fy' t in
      eq_of_some (
        sym fx'
        ∙ sym (get_elem?-take (suc (n + i)) xs (n + i) (omega arith))
        ∙ ap (λ l. get_elem? l (n + i)) same
        ∙ get_elem?-take (suc (n + i)) ys (n + i) (omega arith)
        ∙ fy')

  pub merged-prefix :
      (n : ℕ)
      → n ≤ length xs
      → n ≤ length ys
      → take n xs ≡ take n ys
      → take (length ys) (merged n xs (drop n ys)) ≡ ys
  merged-prefix n inside within same =
      subst (λ k. take k (merged n xs (drop n ys)) ≡ ys)
        (let e : n + length (drop n ys) ≡ length ys = omega (arith, length-drop n ys) in e)
        (take-append_add n (length (drop n ys)) (take n xs) _ (omega (arith, length-take n xs))
          ∙ ap (λ l. take n xs ++ l) (take-merge_new _ _ (matching-Determined n))
          ∙ ap (λ l. l ++ drop n ys) same
          ∙ take-append-drop n ys)

module _ (now : ℕ) (peer saved_term : ℤ) (leader cm cm' : ConsensusModule)
    (req : AppendEntriesRequest) (reply : AppendEntriesResponse) (es : List Effect)
    (fits : length leader.log < 2 ^ 63) (sent : append_request peer saved_term leader ≡ ok req)
    (returned : append_entries_helper now req cm ≡ ok (cm', reply, es))
    (success : reply.success ≡ true) (matching : LogMatching cm.log leader.log) where
  -- A follower that accepts a request, which leaderSendAEs made from the state of a leader with
  -- fewer than 2^63 entries, has the leader's whole log of that state as the beginning of its own,
  -- if the two logs matched before as Raft's Log Matching says.
  pub delivered : take (length leader.log) cm'.log ≡ leader.log
  unfolding append_request
  delivered =
      let (n, _, sending) = Requested-from _ saved_term leader req fits sent in
      let a = accepted now req cm cm' reply es returned success in
      let same : a.start ≡ n = cc (a.starts.0, sending.starts.0) in
      let start : Start req cm.log n = subst (Start req cm.log) same a.starts in
      let agree =
        prefix_of_HasPrev cm.log leader.log matching n req.prev_log_term start.2 sending.starts.2 in
      let log : cm'.log ≡ merged n cm.log (drop n leader.log) =
        a.log ∙ ap (λ k. merged k cm.log req.entries) same ∙ ap (merged n cm.log) sending.entries in
      ap (take (length leader.log)) log
      ∙ merged-prefix cm.log leader.log matching n start.1 sending.starts.1 agree

-- No entry of the log has the given term.
abbrev pub NoTerm : ℤ → List LogEntry → Type 0
NoTerm term log = (i : ℕ) (e : LogEntry) → get_elem? log i ≡ some e → beq_ℤ e.term term ≡ false

last_index_of_term-none :
    (log : List LogEntry) (term : ℤ) (n : ℕ)
    → NoTerm term log
    → last_index_of_term log term n ≡ minus_one
unfolding last_index_of_term
last_index_of_term-none log term zero h = refl
last_index_of_term-none log term (suc n) h = elim (Option-cases (get_elem? log n)) [
  | inl past ↦ ground (arith, past, last_index_of_term-none log term n h)
  | inr (e, found) ↦ ground (arith, found, h n e found, last_index_of_term-none log term n h)
]

-- The reply of a follower that refused, as AppendEntriesHelper makes it.
abbrev pub refusal : ℤ → AppendEntriesResponse
refusal term = record {
  term = term;
  success = false;
  conflict_index = pos 0;
  conflict_term = pos 0;
}

next_after_refusal-zero :
    (term : ℤ) (log : List LogEntry)
    → NoTerm (pos 0) log
    → next_after_refusal (refusal term) log ≡ pos 0
unfolding next_after_refusal
next_after_refusal-zero term log h = rw (last_index_of_term-none log (pos 0) (length log) h)

read-insert_self : (k v : ℤ) (m : Map ℤ ℤ) → read (insert k v m) k ≡ v
read-insert_self k v m = ground (arith, lookup-insert k k v m)

refusal_handled :
    (now : ℕ) (peer next : ℤ) (entries : List LogEntry) (leader : ConsensusModule)
    → is_leader leader.state ≡ true
    → NoTerm (pos 0) leader.log
    → append_reply now peer leader.current_term next entries (refusal leader.current_term) leader
      ≡ ok (record leader { next_index = insert peer (pos 0) leader.next_index }, [])
unfolding append_reply
refusal_handled now peer next entries leader lead none_zero =
    rw (next_after_refusal-zero leader.current_term leader.log none_zero) (ground arith)

refused :
    (now : ℕ) (req : AppendEntriesRequest) (cm cm' : ConsensusModule)
    (reply : AppendEntriesResponse) (es : List Effect)
    → is_dead cm.state ≡ false
    → cm.current_term ≤ℤ req.term
    → append_entries_helper now req cm ≡ ok (cm', reply, es)
    → reply.success ≡ false
    → (reply ≡ refusal req.term) × (is_dead cm'.state ≡ false) × (cm'.current_term ≡ req.term)
unfolding append_entries_helper become_follower
refused now req cm cm' reply es alive fresh h rejected =
    ground (arith, eq_of_parts cm.current_term req.term)

-- A live server whose term is not greater than that of a leader with no entry of term 0 answers a
-- request of the leader's term, and refuses. Then its reply sends the leader back to the start
-- of its log: the leader handles the reply and makes the next request without a panic, and the
-- server that refused accepts that request.
pub refused_then_accepted :
    (now answered later : ℕ) (peer next : ℤ) (first : AppendEntriesRequest)
    (leader cm cm' : ConsensusModule) (reply : AppendEntriesResponse) (es : List Effect)
    → is_leader leader.state ≡ true
    → NoTerm (pos 0) leader.log
    → is_dead cm.state ≡ false
    → cm.current_term ≤ℤ leader.current_term
    → first.term ≡ leader.current_term
    → append_entries_helper now first cm ≡ ok (cm', reply, es)
    → reply.success ≡ false
    → (leader' : ConsensusModule) × (es' : List Effect) × (req : AppendEntriesRequest)
      × (append_reply answered peer leader.current_term next first.entries reply leader
          ≡ ok (leader', es'))
      × (append_request peer leader.current_term leader' ≡ ok req)
      × (succeeded (append_entries_helper later req cm') ≡ true)
unfolding append_request
refused_then_accepted now answered later peer next first leader cm cm' reply es lead none_zero alive
      fresh in_term returned rejected =
    let t = leader.current_term in
    let (zeros, alive', at) =
      refused now first cm cm' reply es alive
        (subst (λ x. cm.current_term ≤ℤ x) (sym in_term) fresh) returned rejected in
    let is_zero : reply ≡ refusal t = zeros ∙ ap refusal in_term in
    let leader' : ConsensusModule = record leader {
      next_index = insert peer (pos 0) leader.next_index;
    } in
    let req = request_of t leader' minus_one minus_one leader.log in
    (
      leader',
      [],
      req,
      ap (λ r. append_reply answered peer t next first.entries r leader) is_zero
          ∙ refusal_handled answered peer next first.entries leader lead none_zero,
      rw read-insert_self (request_from-zero t leader'),
      (succeeds_iff later req cm').1 (
        alive',
        subst (λ x. x ≤ℤ t) (sym (at ∙ in_term)) (omega arith),
        (0, (refl, omega arith, tt)),
      ),
    )
