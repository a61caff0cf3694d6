-- ===== src/Raft/Leader/Commit.antt =====
-- What moves the commit index of a leader.
use advanced_group_chat_syst.Base.{
  ℕ, zero, suc, ◌+◌, ◌≤◌, ℤ, pos, negsuc, beq_ℤ_iff, ◌≤ℤ◌, ◌<ℤ◌, ◌-◌, ◌≡◌, ◌⊎◌, inl, inr, sym, ap,
  ◌∙◌, List, get_elem?, get_elem?-drop, drop, true, ok, Result-cases, some, subst, arith,
  slot_after,
}
use advanced_group_chat_syst.Pb.{LogEntry, AppendEntriesResponse}
use advanced_group_chat_syst.Raft.State.{ConsensusModule, Effect, is_leader}
use advanced_group_chat_syst.Raft.Leader.{scan_commit, append_reply}
use advanced_group_chat_syst.Raft.Leader.Scan.{Majority, scan-cases, scan-ge, scan-last}

slot_after_ge : (c : ℤ) {n : ℕ} → slot_after c ≡ ok n → c ≤ℤ pos n
slot_after_ge (pos k) h = ground arith
slot_after_ge (negsuc zero) h = omega arith
slot_after_ge (negsuc (suc k)) h = cc

le_of_eq_le : (j i : ℕ) (c : ℤ) → j ≡ i → pos j ≤ℤ c → pos i ≤ℤ c
le_of_eq_le j i c same h = omega arith

slot_after_le : (c : ℤ) (i : ℕ) {n : ℕ} → slot_after c ≡ ok n → c <ℤ pos i → n ≤ i
slot_after_le (pos k) i h lt = ground arith
slot_after_le (negsuc zero) i h lt = ground arith
slot_after_le (negsuc (suc k)) i h lt = cc

module _ (now : ℕ) (peer saved_term next : ℤ) (entries : List LogEntry)
    (reply : AppendEntriesResponse) (cm cm' : ConsensusModule) (es : List Effect)
    (returned : append_reply now peer saved_term next entries reply cm ≡ ok (cm', es)) where
  advanced :
      (cm'.commit_index ≡ cm.commit_index)
      ⊎ ((start : ℕ) × (slot_after cm.commit_index ≡ ok start)
          × (cm'.commit_index
              ≡ scan_commit cm.current_term cm'.match_index cm.peer_ids start
                  (drop start cm.log)
                  cm.commit_index))
  unfolding append_reply
  advanced = elim (Result-cases (slot_after cm.commit_index)) [
    | inl bad ↦ inl (ground (arith, bad))
    | inr (start, from) ↦ ground (arith, from)
  ]

  -- A reply to AppendEntries that is handled without a panic leaves the commit index, or moves it
  -- up to the index of an entry of the current term that a majority of the cluster is known to
  -- hold.
  pub commit_moves :
      (cm.commit_index ≤ℤ cm'.commit_index)
      × ((cm'.commit_index ≡ cm.commit_index)
          ⊎ ((i : ℕ) × (e : LogEntry) × (get_elem? cm.log i ≡ some e)
              × (e.term ≡ cm.current_term)
              × Majority (pos i) cm'.match_index cm.peer_ids
              × (cm'.commit_index ≡ pos i)))
  commit_moves = elim advanced [
    | inl same ↦ (ground (arith, same), inl same)
    | inr (start, from, at) ↦ (
      rw at (
          scan-ge cm.current_term cm'.match_index cm.peer_ids start (drop start cm.log)
            cm.commit_index (slot_after_ge cm.commit_index from)),
      elim (scan-cases cm.current_term cm'.match_index cm.peer_ids start (drop start cm.log)
          cm.commit_index) [
            | inl same ↦ inl (at ∙ same)
            | inr (j, c, place) ↦ inr (
              start + j,
              c.entry,
              sym (get_elem?-drop start cm.log j) ∙ c.found,
              c.own_term,
              c.majority,
              at ∙ place,
            )
          ],
    )
  ]

  scanned :
      is_leader cm.state ≡ true
      → reply.term ≡ saved_term
      → reply.term ≤ℤ cm.current_term
      → reply.success ≡ true
      → (start : ℕ) × (slot_after cm.commit_index ≡ ok start)
        × (cm'.commit_index
            ≡ scan_commit cm.current_term cm'.match_index cm.peer_ids start
                (drop start cm.log)
                cm.commit_index)
  unfolding append_reply
  scanned lead same fresh success = elim (Result-cases (slot_after cm.commit_index)) [
    | inl bad ↦ absurd (ground (arith, bad, beq_ℤ_iff saved_term reply.term))
    | inr (start, from) ↦ (start, from, ground (arith, from, beq_ℤ_iff saved_term reply.term))
  ]

  -- When a leader has handled, without a panic, a successful reply of the term in which the request
  -- was made, no greater than its own, every entry of its own term above its old commit index that
  -- a majority is known to hold is committed.
  pub commit_maximal :
      (i : ℕ) (e : LogEntry)
      → is_leader cm.state ≡ true
      → reply.term ≡ saved_term
      → reply.term ≤ℤ cm.current_term
      → reply.success ≡ true
      → cm.commit_index <ℤ pos i
      → get_elem? cm.log i ≡ some e
      → e.term ≡ cm.current_term
      → Majority (pos i) cm'.match_index cm.peer_ids
      → pos i ≤ℤ cm'.commit_index
  commit_maximal i e lead same fresh success above found own majority =
      let (start, from, at) = scanned lead same fresh success in
      let below = slot_after_le cm.commit_index i from above in
      let place : start + (i - start) ≡ i = omega arith in
      rw at (
        le_of_eq_le (start + (i - start)) i _ place (
          scan-last cm.current_term cm'.match_index cm.peer_ids start (drop start cm.log)
            cm.commit_index (i - start)
            (record {
              entry = e;
              found = get_elem?-drop start cm.log (i - start) ∙ ap (get_elem? cm.log) place ∙ found;
              own_term = own;
              majority =
                  subst (λ k. Majority (pos k) cm'.match_index cm.peer_ids) (sym place) majority;
            })))
