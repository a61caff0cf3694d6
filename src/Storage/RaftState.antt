-- ===== src/Storage/RaftState.antt =====
-- server/storage.go: SetState, GetState and HasData, over the store of the raft data.
pub mod Round
use advanced_group_chat_syst.Base.{
  ℤ, ltb, String, Bool, true, false, Option, none, some, List, [], length, Result, ok, panic,
  demand, ◌>>=◌, if◌then◌else◌,
}
use advanced_group_chat_syst.Pb.{LogEntry}
use advanced_group_chat_syst.Raft.State.{Persisted}
use advanced_group_chat_syst.Storage.Backend.{Backend}

-- The value of a decoding that must succeed: the code ends the process by log.Fatal.
abbrev pub decoded {ℓ} : {A : Type ℓ} → A × Bool → Result A
decoded (a, done) = if done then ok a else panic

-- A write whose error is ignored.
abbrev pub or_unchanged {ℓ} : {A : Type ℓ} → Option A → A → A
or_unchanged none s = s
or_unchanged (some s') s = s'

module _ (b : Backend) where
  open b use {Store, get, set, encode_int, decode_int, encode_log, decode_log, count_entries}

  -- SetState: only an error of the first write is looked at.
  unfoldable pub set_state : Persisted → Store → Result Store
  set_state p s = do
    term_bytes ← demand (encode_int p.term)
    s1 ← demand (set "currentTerm" term_bytes s)
    voted_bytes ← demand (encode_int p.voted_for)
    let s2 = or_unchanged (set "votedFor" voted_bytes s1) s1
    log_bytes ← demand (encode_log p.log)
    ok (or_unchanged (set "log" log_bytes s2) s2)

  -- GetState: a key that is missing ends the process.
  unfoldable pub get_state : Store → Result Persisted
  get_state s = do
    term_bytes ← demand (get "currentTerm" s)
    term ← decoded (decode_int term_bytes)
    voted_bytes ← demand (get "votedFor" s)
    voted_for ← decoded (decode_int voted_bytes)
    log_bytes ← demand (get "log" s)
    log ← decoded (decode_log log_bytes)
    ok (record { term = term; voted_for = voted_for; log = log })

  -- HasData: whether the stored log has an entry.
  unfoldable pub has_data : Store → Result Bool
  has_data s = elim (get "log" s) [
    | none ↦ ok false
    | some log_bytes ↦ do n ← decoded (count_entries log_bytes); ok (ltb 0 n)
  ]
