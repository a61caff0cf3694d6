-- ===== src/Raft/Append/Merge.antt =====
-- The insertion loop against a plain recursion over the two lists.
use advanced_group_chat_syst.Base.{
  ℕ, suc, ◌+◌, ◌≤◌, beq_ℤ, ltb, ◌≡◌, refl, List, [], ◌∷◌, ◌++◌, length, take, drop, get_elem?-of_lt,
  drop_cons, drop_all, Bool-cases, inl, inr, ok, slot_after, take-add, take-append-drop, leb,
  if◌then◌else◌, arith,
}
use advanced_group_chat_syst.Pb.{LogEntry, AppendEntriesRequest}
use advanced_group_chat_syst.Raft.Append.{insertion_point, insert_entries}
use mathlib.Core.List.{append_assoc}
use native.Mathlib.Nat.{zero-add}

-- How many entries the two lists share, by their terms.
unfoldable pub common : List LogEntry → List LogEntry → ℕ
common [] es = 0
common (f ∷ s) [] = 0
common (f ∷ s) (e ∷ es) = let rest = common s es in if beq_ℤ f.term e.term then suc rest else 0

-- The old entries as long as the terms agree, then the new ones; if all of these agree, the rest of
-- the old ones too.
unfoldable pub merge : List LogEntry → List LogEntry → List LogEntry
merge [] es = es
merge (f ∷ s) [] = f ∷ s
merge (f ∷ s) (e ∷ es) = let rest = merge s es in if beq_ℤ f.term e.term then f ∷ rest else e ∷ es

common-nil : (s : List LogEntry) → common s [] ≡ 0
unfolding common
common-nil [] = refl
common-nil (f ∷ s) = refl

insertion_point_at :
    (log : List LogEntry) (i n : ℕ) (es : List LogEntry)
    → i ≤ length log
    → insertion_point log i n es ≡ ok (i + common (drop i log) es, n + common (drop i log) es)
unfolding insertion_point common
insertion_point_at log i n [] h = ground (arith, common-nil (drop i log))
insertion_point_at log i n (e ∷ es) h = elim (Bool-cases (leb (length log) i)) [
  | inl done ↦ rw (drop_all log i (ground arith)) (ground arith)
  | inr more ↦
      let (f, found) = get_elem?-of_lt log i (ground arith) in
      rw (found, drop_cons log i found) (ground (arith, insertion_point_at log (suc i) (suc n) es))
]

-- `take` and `drop` at the insertion point give the merged list.
merge_lem :
    (s es : List LogEntry)
    → merge s es
      ≡ (if ltb (common s es) (length es) then take (common s es) s ++ drop (common s es) es else s)
unfolding common merge
merge_lem [] [] = refl
merge_lem [] (e ∷ es) = ground arith
merge_lem (f ∷ s) [] = refl
merge_lem (f ∷ s) (e ∷ es) = ground (arith, merge_lem s es)

-- The log after the new entries, which begin at `start`.
abbrev pub merged : ℕ → List LogEntry → List LogEntry → List LogEntry
merged start log es = take start log ++ merge (drop start log) es

insert_at :
    (start : ℕ) (log es : List LogEntry)
    → (if ltb (common (drop start log) es) (length es)
        then take (start + common (drop start log) es) log ++ drop (common (drop start log) es) es
        else log)
      ≡ merged start log es
insert_at start log es = elim (Bool-cases (ltb (common (drop start log) es) (length es))) [
  | inl new ↦ rw (merge_lem, new, ← take-add, append_assoc)
  | inr old ↦ rw (merge_lem, old, take-append-drop)
]

-- With a start that is within the log, the insertion of the new entries does not panic, and gives the
-- entries before the start and then the merge of the rest with the new ones.
pub insert_entries_lem :
    (req : AppendEntriesRequest) (log : List LogEntry) {start : ℕ}
    → slot_after req.prev_log_index ≡ ok start
    → start ≤ length log
    → insert_entries req log ≡ ok (merged start log req.entries)
unfolding insert_entries
insert_entries_lem req log {start} from h =
    rw (from, insertion_point_at log start 0 req.entries h, zero-add)
      (ground (arith, insert_at start log req.entries))
