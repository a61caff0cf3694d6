-- ===== src/Server/Chat/Delivery.antt =====
-- Who gets a broadcast.
use advanced_group_chat_syst.Base.{
  ℕ, String, Bool, true, false, ◌&&◌, not, ◌≡◌, refl, sym, ap, ◌∙◌, subst, inl, inr, none, some,
  Option-cases, Bool-cases, List, [], ◌∷◌, map, lookup, delete, lookup-delete, nat_eq, nat_beq_iff,
  string_eq, ◌==◌, if◌then◌else◌, arith,
}
use advanced_group_chat_syst.Storage.Backend.{Backend}
use advanced_group_chat_syst.Pb.{GroupChatResponse}
use advanced_group_chat_syst.Storage.Disk.{get_group}
use advanced_group_chat_syst.Server.Connections.{ConnStore}
use advanced_group_chat_syst.Server.Chat.{broadcast}

-- The client of a stream is in the group, and the stream's context has not ended.
abbrev pub is_target : (ℕ → Bool) → String → ConnStore → ℕ → Bool
is_target ended groupname conns stream = elim (lookup stream conns) [
  | none ↦ false
  | some client ↦ client.group == groupname && not (ended stream)
]

abbrev pub targets : (ℕ → Bool) → String → ConnStore → List ℕ → List ℕ
targets ended groupname conns [] = []
targets ended groupname conns (stream ∷ order) =
    let rest = targets ended groupname conns order in
    if is_target ended groupname conns stream then stream ∷ rest else rest

module _ (ended : ℕ → Bool) (groupname : String) where
  is_target-delete :
      (k : ℕ) (conns : ConnStore) (i : ℕ)
      → ended k ≡ true
      → is_target ended groupname (delete k conns) i ≡ is_target ended groupname conns i
  is_target-delete k conns i e = elim (Bool-cases (k == i)) [
    | inl same ↦
        let eq : k ≡ i = (nat_beq_iff k i).0 same in
        let e' : ended i ≡ true = ap ended (sym eq) ∙ e in
        elim (Option-cases (lookup i conns)) [
          | inl gone ↦ ground (arith, lookup-delete k i conns, gone)
          | inr (c, found) ↦ elim (Bool-cases (c.group == groupname)) [
            | inl x ↦ ground (arith, lookup-delete k i conns, found, e', x)
            | inr x ↦ ground (arith, lookup-delete k i conns, found, e', x)
          ]
        ]
    | inr other ↦ ground (arith, lookup-delete k i conns, other)
  ]

  targets-delete :
      (k : ℕ) (conns : ConnStore) (order : List ℕ)
      → ended k ≡ true
      → targets ended groupname (delete k conns) order ≡ targets ended groupname conns order
  targets-delete k conns [] e = refl
  targets-delete k conns (i ∷ order) e =
      ground (arith, is_target-delete k conns i e, targets-delete k conns order e)

module _ (b : Backend) (ended : ℕ → Bool) (groupname : String) (s : b.Store) where
  -- What is sent to each stream.
  abbrev pub told : GroupChatResponse
  told = record { group = (get_group b groupname s).0; event = "b" }

  -- The result of a broadcast that goes to `ts`: it was sent to these, with the stored group, and
  -- the streams whose context has not ended are still there.
  abbrev Reaches : List ℕ → ConnStore → ConnStore × List (ℕ × GroupChatResponse) → Type 0
  Reaches ts conns r =
      (map (λ p. p.0) r.1 ≡ ts)
      × (map (λ p. p.1) r.1 ≡ map (λ stream. told) ts)
      × ((i : ℕ) → ended i ≡ false → lookup i r.0 ≡ lookup i conns)

  moved :
      (conns : ConnStore) {ts ts' : List ℕ} {r r' : ConnStore × List (ℕ × GroupChatResponse)}
      → ts' ≡ ts
      → r' ≡ r
      → Reaches ts conns r
      → Reaches ts' conns r'
  moved conns {ts} {ts'} {r} {r'} e f h =
      subst (λ x. Reaches x conns r') (sym e) (subst (Reaches ts conns) (sym f) h)

  -- A broadcast goes, in the order of the visit, to each visited stream of a client in the group
  -- whose context has not ended; all get the stored group under the event "b"; and no stream whose
  -- context has not ended is dropped.
  pub broadcast_reaches :
      (order : List ℕ) (conns : ConnStore)
      → let (conns', sent) = broadcast b order ended groupname s conns in
        (map (λ p. p.0) sent ≡ targets ended groupname conns order)
        × (map (λ p. p.1) sent ≡ map (λ stream. told) (targets ended groupname conns order))
        × ((i : ℕ) → ended i ≡ false → lookup i conns' ≡ lookup i conns)
  unfolding broadcast
  broadcast_reaches [] conns = (refl, refl, λ i e. refl)
  broadcast_reaches (k ∷ order) conns = elim (Option-cases (lookup k conns)) [
    | inl gone ↦
        moved conns (ground (arith, gone)) (ground (arith, gone)) (broadcast_reaches order conns)
    | inr (c, found) ↦ elim (Bool-cases (c.group == groupname)) [
      | inr elsewhere ↦
          moved conns (ground (arith, found, elsewhere)) (ground (arith, found, elsewhere))
            (broadcast_reaches order conns)
      | inl member ↦ elim (Bool-cases (ended k)) [
        | inl over ↦
            let (to, what, kept) = broadcast_reaches order (delete k conns) in
            let same = targets-delete ended groupname k conns order over in
            moved conns
              (let skip : targets ended groupname conns (k ∷ order)
                    ≡ targets ended groupname (delete k conns) order =
                  ground (arith, found, member, over, same) in
                skip)
              (ground (arith, found, member, over))
              (
                to,
                what,
                λ i e. kept i e ∙ ground (arith, lookup-delete k i conns, nat_beq_iff k i, over, e),
              )
        | inr alive ↦
            let (to, what, kept) = broadcast_reaches order conns in
            let (conns', sent) = broadcast b order ended groupname s conns in
            moved conns
              (let hit : targets ended groupname conns (k ∷ order)
                    ≡ k ∷ targets ended groupname conns order =
                  ground (arith, found, member, alive) in
                hit)
              (let one : broadcast b (k ∷ order) ended groupname s conns
                    ≡ (conns', (k, told) ∷ sent) =
                  ground (arith, found, member, alive) in
                one)
              (ap (λ l. k ∷ l) to, ap (λ l. told ∷ l) what, kept)
      ]
    ]
  ]
