-- ===== src/Storage/RaftState/Round.antt =====
-- What SetState wrote, GetState reads.
use advanced_group_chat_syst.Base.{
  ltb, String, ◌≡◌, ◌≢◌, refl, Option, none, some, Option-cases, inl, inr, ◌∙◌, length, ok,
  string_eq, arith,
}
use advanced_group_chat_syst.Raft.State.{Persisted}
use advanced_group_chat_syst.Storage.Backend.{Backend, IsLawful}
use advanced_group_chat_syst.Storage.RaftState.{set_state, get_state, has_data}

-- A store on which no write fails.
abbrev pub Writable : Backend → Type 0
Writable b = (k : String) (v : b.Bytes) (s : b.Store) → b.set k v s ≢ none

some_of_ne_none {ℓ} : {A : Type ℓ} (o : Option A) → o ≢ none → (a : A) × (o ≡ some a)
some_of_ne_none none h = absurd (h refl)
some_of_ne_none (some a) h = (a, refl)

module _ (b : Backend) (law : IsLawful b) (writable : Writable b) where
  written_bytes :
      (p : Persisted) (s t : b.Store)
      → set_state b p s ≡ ok t
      → (x : b.Bytes) × (y : b.Bytes) × (z : b.Bytes) × (b.encode_int p.term ≡ some x)
        × (b.encode_int p.voted_for ≡ some y)
        × (b.encode_log p.log ≡ some z)
        × (b.get "currentTerm" t ≡ some x)
        × (b.get "votedFor" t ≡ some y)
        × (b.get "log" t ≡ some z)
  unfolding set_state
  written_bytes p s t h = elim (Option-cases (b.encode_int p.term)) [
    | inl bad ↦ absurd (ground (arith, bad))
    | inr (x, ex) ↦ elim (Option-cases (b.encode_int p.voted_for)) [
      | inl bad ↦ absurd (ground (arith, ex, bad, writable "currentTerm" x s))
      | inr (y, ey) ↦ elim (Option-cases (b.encode_log p.log)) [
        | inl bad ↦ absurd (ground (arith, ex, ey, bad, writable "currentTerm" x s))
        | inr (z, ez) ↦
            let (s1, w1) = some_of_ne_none (b.set "currentTerm" x s) (writable "currentTerm" x s) in
            let (s2, w2) = some_of_ne_none (b.set "votedFor" y s1) (writable "votedFor" y s1) in
            let (s3, w3) = some_of_ne_none (b.set "log" z s2) (writable "log" z s2) in
            let last : s3 ≡ t = ground (arith, ex, ey, ez, w1, w2, w3) in
            (
              x,
              y,
              z,
              ex,
              ey,
              ez,
              rw (← last) (
                  law.get-set "log" "currentTerm" z s2 s3 w3
                  ∙ law.get-set "votedFor" "currentTerm" y s1 s2 w2
                  ∙ law.get-set "currentTerm" "currentTerm" x s s1 w1),
              rw (← last) (
                  law.get-set "log" "votedFor" z s2 s3 w3
                  ∙ law.get-set "votedFor" "votedFor" y s1 s2 w2),
              rw (← last) (law.get-set "log" "log" z s2 s3 w3),
            )
      ]
    ]
  ]

  -- On a store that reads what was written and on which no write fails, after a SetState that does
  -- not panic GetState does not panic either, and gives the same term, vote and log.
  pub set_get_state :
      (p : Persisted) (s t : b.Store) → set_state b p s ≡ ok t → get_state b t ≡ ok p
  unfolding get_state
  set_get_state p s t h =
      let (x, y, z, ex, ey, ez, gx, gy, gz) = written_bytes p s t h in
      ground (
        arith,
        gx,
        law.int_round p.term x ex,
        gy,
        law.int_round p.voted_for y ey,
        gz,
        law.log_round p.log z ez,
      )

  pub set-has_data :
      (p : Persisted) (s t : b.Store)
      → set_state b p s ≡ ok t
      → has_data b t ≡ ok (ltb 0 (length p.log))
  unfolding has_data
  set-has_data p s t h =
      let (x, y, z, ex, ey, ez, gx, gy, gz) = written_bytes p s t h in
      ground (arith, gz, law.count_round p.log z ez)
