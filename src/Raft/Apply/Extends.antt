-- ===== src/Raft/Apply/Extends.antt =====
-- commitChanSender hands on each committed entry once, in order, with its index.
use advanced_group_chat_syst.Base.{
  ℕ, zero, suc, ◌+◌, ◌-◌, ◌^◌, ◌≤◌, ◌<◌, ℤ, pos, negsuc, add64, add64_pos, ltb_ℤ, ◌≡◌, refl, sym,
  ap, ◌∙◌, List, [], ◌∷◌, ◌++◌, map, length, take, drop, take-take, take-append-drop, length-take,
  length-drop, Option, ok, slot_after, arith, Bool-cases, inl, inr, eq_of_ok, ◌≤ℤ◌,
}
use mathlib.Core.Path.{ap₂}
use mathlib.Core.List.{map-append, append-nil}
use advanced_group_chat_syst.Pb.{Command, LogEntry}
use advanced_group_chat_syst.Raft.State.{ConsensusModule}
use advanced_group_chat_syst.Raft.Apply.{CommitEntry, number_entries, commit_chan_sender}

abbrev pub commands : List LogEntry → List (Option Command)
commands es = map (λ e. e.command) es

abbrev pub sent_commands : List CommitEntry → List (Option Command)
sent_commands es = map (λ e. e.command) es

abbrev pub sent_indices : List CommitEntry → List ℤ
sent_indices es = map (λ e. e.index) es

-- The indices `n`, `n + 1`, …, `k` of them.
abbrev pub indices_from : ℕ → ℕ → List ℤ
indices_from n zero = []
indices_from n (suc k) = pos n ∷ indices_from (suc n) k

numbered_commands :
    (last term : ℤ) (i : ℕ) (es : List LogEntry)
    → sent_commands (number_entries last term i es) ≡ commands es
unfolding number_entries
numbered_commands last term i [] = refl
numbered_commands last term i (e ∷ es) =
    ap (λ l. e.command ∷ l) (numbered_commands last term (suc i) es)

next_number :
    (last : ℤ) (lo i : ℕ)
    → slot_after last ≡ ok lo
    → lo + i < 2 ^ 63
    → add64 last (pos (suc i)) ≡ pos (lo + i)
next_number (pos n) lo i from fits =
    let e : suc n ≡ lo = eq_of_ok from in
    add64_pos n (suc i) (omega arith) ∙ ap pos (let z : n + suc i ≡ lo + i = omega arith in z)
next_number (negsuc zero) lo i from fits =
    let e : 0 ≡ lo = eq_of_ok from in unfold add64 in ground arith
next_number (negsuc (suc n)) lo i from fits = cc

numbered_indices :
    (last term : ℤ) (lo i : ℕ) (es : List LogEntry)
    → slot_after last ≡ ok lo
    → lo + i + length es ≤ 2 ^ 63
    → sent_indices (number_entries last term i es) ≡ indices_from (lo + i) (length es)
unfolding number_entries
numbered_indices last term lo i [] from fits = refl
numbered_indices last term lo i (e ∷ es) from fits =
    ap₂ ◌∷◌ (next_number last lo i from (omega arith)) (
      numbered_indices last term lo (suc i) es from (omega arith)
      ∙ ap (λ k. indices_from k (length es)) (let z : lo + suc i ≡ suc (lo + i) = omega arith in z))

slot_order : (a c : ℤ) {n m : ℕ} → slot_after a ≡ ok n → slot_after c ≡ ok m → c ≤ℤ a → m ≤ n
slot_order (pos a) (pos c) f g h = ground arith
slot_order (pos a) (negsuc zero) f g h = ground arith
slot_order (pos a) (negsuc (suc c)) f g h = cc
slot_order (negsuc zero) (pos c) f g h = absurd (omega arith)
slot_order (negsuc zero) (negsuc zero) f g h = ground arith
slot_order (negsuc zero) (negsuc (suc c)) f g h = cc
slot_order (negsuc (suc a)) c f g h = cc

split_prefix :
    (lo hi : ℕ) (log : List LogEntry) → lo ≤ hi → take lo log ++ drop lo (take hi log) ≡ take hi log
split_prefix lo hi log le =
    ap (λ l. l ++ drop lo (take hi log)) (sym (take-take lo hi log le))
    ∙ take-append-drop lo (take hi log)

-- With `lo` entries applied and `hi` committed, `lo` at most `hi` and both within a log of fewer
-- than 2^63 entries, commitChanSender does not panic. It sends what is missing: after the commands
-- of the first `lo` entries come those of the rest of the first `hi`, with the indices from `lo`
-- on, and then `hi` entries are applied.
pub sender_extends :
    (cm : ConsensusModule) (lo hi : ℕ)
    → slot_after cm.last_applied ≡ ok lo
    → slot_after cm.commit_index ≡ ok hi
    → lo ≤ hi
    → hi ≤ length cm.log
    → length cm.log < 2 ^ 63
    → (cm' : ConsensusModule) × (sent : List CommitEntry) × (commit_chan_sender cm ≡ ok (cm', sent))
      × (commands (take lo cm.log) ++ sent_commands sent ≡ commands (take hi cm.log))
      × (sent_indices sent ≡ indices_from lo (hi - lo))
      × (slot_after cm'.last_applied ≡ ok hi)
unfolding commit_chan_sender
sender_extends cm lo hi from to le inside fits =
    elim (Bool-cases (ltb_ℤ cm.last_applied cm.commit_index)) [
      | inl more ↦ (
        record cm { last_applied = cm.commit_index },
        number_entries cm.last_applied cm.current_term 0 (drop lo (take hi cm.log)),
        ground (arith, from, to),
        rw (numbered_commands, ← map-append) (ap commands (split_prefix lo hi cm.log le)),
        numbered_indices cm.last_applied cm.current_term lo 0 (drop lo (take hi cm.log)) from
              (omega (arith, length-drop lo (take hi cm.log), length-take hi cm.log))
            ∙ ap₂ indices_from (let z : lo + 0 ≡ lo = omega arith in z) (
                let z : length (drop lo (take hi cm.log)) ≡ hi - lo =
                  omega (arith, length-drop lo (take hi cm.log), length-take hi cm.log) in
                z),
        to,
      )
      | inr none_left ↦
          let same : lo ≡ hi =
            omega (arith, slot_order cm.last_applied cm.commit_index from to (ground arith)) in
          (
            cm,
            [],
            rw none_left,
            rw append-nil (ap (λ k. commands (take k cm.log)) same),
            ap (indices_from lo) (let z : 0 ≡ hi - lo = omega arith in z),
            from ∙ ap ok same,
          )
    ]
