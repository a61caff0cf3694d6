-- ===== src/Raft/Append/Replication.antt =====
-- What a successful AppendEntries does to the log.
use advanced_group_chat_syst.Base.{
  ℕ, zero, suc, ◌+◌, ◌-◌, ◌≤◌, ℤ, ltb_ℤ, eq_of_parts, if◌then◌else◌, ◌≡◌, refl, sym, ap, ◌∙◌, List,
  ◌++◌, length, get_elem?, take, drop, true, ok, panic, subst, arith, slot_after, length-append,
  length-take, length-drop, take-append, take-append_add, get_elem?-take, take-take, take-add,
  drop-append_self,
}
use advanced_group_chat_syst.Pb.{LogEntry, AppendEntriesRequest, AppendEntriesResponse}
use advanced_group_chat_syst.Raft.State.{ConsensusModule, Effect}
use advanced_group_chat_syst.Raft.Append.{append_entries_helper, int_min, last_index}
use advanced_group_chat_syst.Raft.Append.Merge.{merge, merged}
use advanced_group_chat_syst.Raft.Append.MergeLaws.{length-le-merge, merge_idem, Agrees, take-merge}
use advanced_group_chat_syst.Raft.Append.Outcome.{Handled, succeeded, succeeds_iff}
use native.Mathlib.Decide.{dec_le}
use advanced_group_chat_syst.Raft.Append.Accepted.{Accepted, accepted, Start, HasPrev}

length-take_le {ℓ} : {A : Type ℓ} (n : ℕ) (xs : List A) → n ≤ length xs → length (take n xs) ≡ n
length-take_le n xs h = omega (arith, length-take n xs)

module _ (start : ℕ) (log es : List LogEntry) (within : start ≤ length log) where
  drop-merged : drop start (merged start log es) ≡ merge (drop start log) es
  drop-merged = drop-append_self start (take start log) _ (length-take_le start log within)

  take-merged : take start (merged start log es) ≡ take start log
  take-merged =
      take-append start (take start log) _ (omega (arith, length-take_le start log within))
      ∙ take-take start start log (omega arith)

  length-merged : start + length es ≤ length (merged start log es)
  length-merged = omega (
    arith,
    length-append (take start log) (merge (drop start log) es),
    length-take_le start log within,
    length-le-merge (drop start log) es,
  )

  -- The first `k` entries stay, if the terms agree from the start up to there.
  pub take-merged_agree :
      (k : ℕ)
      → k ≤ length log
      → Agrees (k - start) (drop start log) es
      → take k (merged start log es) ≡ take k log
  take-merged_agree k inside agree = elim (dec_le k start) [
    | yes early ↦
        take-append k (take start log) _ (omega (arith, length-take_le start log within))
        ∙ take-take k start log early
    | no late ↦
        let e : start + (k - start) ≡ k = omega arith in
        subst (λ j. take j (merged start log es) ≡ take j log) e
          (take-append_add start (k - start) (take start log) _ (length-take_le start log within)
            ∙ ap (λ l. take start log ++ l)
                (take-merge (k - start) (drop start log) es (omega (arith, length-drop start log))
                  agree)
            ∙ take-add start (k - start) log)
  ]

  merged_twice : merged start (merged start log es) es ≡ merged start log es
  merged_twice = rw (take-merged, drop-merged, merge_idem)

commit_twice :
    (c lc last c' : ℤ)
    → c' ≡ (if ltb_ℤ c lc then int_min lc last else c)
    → (if ltb_ℤ c' lc then int_min lc last else c') ≡ c'
commit_twice c lc last c' h =
    ground (arith, eq_of_parts lc last, eq_of_parts last lc, eq_of_parts c lc)

Accepted_twice :
    (req : AppendEntriesRequest) (cm cm' cm'' : ConsensusModule)
    → Accepted req cm cm'
    → Accepted req cm' cm''
    → (cm''.log ≡ cm'.log) × (cm''.commit_index ≡ cm'.commit_index)
Accepted_twice req cm cm' cm'' a b =
    let same : b.start ≡ a.start = cc (a.starts.0, b.starts.0) in
    let log : cm''.log ≡ cm'.log =
      b.log
      ∙ ap (λ n. merged n cm'.log req.entries) same
      ∙ ap (λ l. merged a.start l req.entries) a.log
      ∙ merged_twice a.start cm.log req.entries a.starts.1
      ∙ sym a.log in
    (
      log,
      b.commit
          ∙ ap
              (λ l.
                if ltb_ℤ cm'.commit_index req.leader_commit
                then int_min req.leader_commit (last_index l)
                else cm'.commit_index)
              log
          ∙ commit_twice cm.commit_index req.leader_commit (last_index cm'.log) cm'.commit_index
              a.commit,
    )

HasPrev-take :
    (n : ℕ) (t : ℤ) (xs ys : List LogEntry)
    → take n xs ≡ take n ys
    → HasPrev n t xs
    → HasPrev n t ys
HasPrev-take zero t xs ys h p = tt
HasPrev-take (suc n) t xs ys h (e, found, same) = (
  e,
  sym (get_elem?-take (suc n) ys n (omega arith))
      ∙ sym (ap (λ l. get_elem? l n) h)
      ∙ get_elem?-take (suc n) xs n (omega arith)
      ∙ found,
  same,
)

succeeded_result :
    (r : Handled)
    → succeeded r ≡ true
    → (cm : ConsensusModule) × (reply : AppendEntriesResponse) × (es : List Effect) × (r
        ≡ ok (cm, reply, es))
      × (reply.success ≡ true)
succeeded_result panic h = cc
succeeded_result (ok (cm, reply, es)) h = (cm, reply, es, refl, h)

module _ (now : ℕ) (req : AppendEntriesRequest) (cm cm' : ConsensusModule)
    (reply : AppendEntriesResponse) (es : List Effect)
    (returned : append_entries_helper now req cm ≡ ok (cm', reply, es))
    (success : reply.success ≡ true) where
  -- After a successful AppendEntries the first `k` entries of the log are as before, if the log had
  -- so many and those of them from PrevLogIndex + 1 on agree by their terms with the entries of the
  -- request, as far as it has any.
  pub committed_kept :
      (n k : ℕ)
      → slot_after req.prev_log_index ≡ ok n
      → k ≤ length cm.log
      → Agrees (k - n) (drop n cm.log) req.entries
      → take k cm'.log ≡ take k cm.log
  committed_kept n k from inside agree =
      let a = accepted now req cm cm' reply es returned success in
      let same : a.start ≡ n = cc (a.starts.0, from) in
      rw a.log (
        take-merged_agree a.start cm.log req.entries a.starts.1 k inside
          (subst (λ m. Agrees (k - m) (drop m cm.log) req.entries) (sym same) agree))

  starts_again :
      let a = accepted now req cm cm' reply es returned success in Start req cm'.log a.start
  starts_again =
      let a = accepted now req cm cm' reply es returned success in
      let (from, within, prev) = a.starts in
      let same : take a.start cm'.log ≡ take a.start cm.log =
        rw a.log (take-merged a.start cm.log req.entries within) in
      (
        from,
        omega (arith, ap length a.log, length-merged a.start cm.log req.entries within),
        HasPrev-take a.start req.prev_log_term cm.log cm'.log (sym same) prev,
      )

  -- After a successful AppendEntries the same request once more succeeds again, and changes neither
  -- the log nor the commit index.
  pub repeat_unchanged :
      (later : ℕ)
      → (cm'' : ConsensusModule) × (reply' : AppendEntriesResponse) × (es' : List Effect)
        × (append_entries_helper later req cm' ≡ ok (cm'', reply', es'))
        × (reply'.success ≡ true)
        × (cm''.log ≡ cm'.log)
        × (cm''.commit_index ≡ cm'.commit_index)
  repeat_unchanged later =
      let a = accepted now req cm cm' reply es returned success in
      let (cm'', reply', es', again, success') =
        succeeded_result (append_entries_helper later req cm') (
          (succeeds_iff later req cm').1
            (ground (arith, a.is_follower_now), ground (arith, a.term), (a.start, starts_again))) in
      let b = accepted later req cm' cm'' reply' es' again success' in
      let (log, commit) = Accepted_twice req cm cm' cm'' a b in
      (cm'', reply', es', again, success', log, commit)
