-- ===== src/Server/Peers/Active.antt =====
-- Which peers count as active, once connected.
use advanced_group_chat_syst.Base.{
  ℕ, String, Bool, Bool-cases, inl, inr, true, ◌||◌, ◌≡◌, refl, ap, ◌∙◌, ◌>>=◌, some, List, [], ◌∷◌,
  In, ok, lookup, insert, lookup-insert, nat_eq, string_eq, ◌==◌, if◌then◌else◌, arith,
}
use advanced_group_chat_syst.Server.Peers.{
  Clients, connect_to_peer, connect_all, active_among, get_active_peers, peer_ids,
}

-- The states that checkPeerConnection accepts.
abbrev pub is_up : String → Bool
is_up state = state == "IDLE" || state == "READY"

-- The peers of a list whose connections are idle or ready.
pub up_among : (ℕ → String) → List ℕ → List ℕ
up_among state_of [] = []
up_among state_of (p ∷ ps) =
    let rest = up_among state_of ps in if is_up (state_of p) then p ∷ rest else rest

-- Every peer of the list has a connection.
abbrev AllIn : List ℕ → Clients → Type 0
AllIn [] clients = Unit
AllIn (p ∷ ps) clients = (lookup p clients ≡ some true) × AllIn ps clients

connect_all_keeps :
    (dials : ℕ → Bool) (ps : List ℕ) (clients clients' : Clients) (i : ℕ)
    → connect_all dials ps clients ≡ ok clients'
    → lookup i clients ≡ some true
    → lookup i clients' ≡ some true
unfolding connect_all connect_to_peer
connect_all_keeps dials [] clients clients' i h found = ground arith
connect_all_keeps dials (p ∷ ps) clients clients' i h found = elim (Bool-cases (dials p)) [
  | inl dialled ↦
      connect_all_keeps dials ps (insert p true clients) clients' i (ground (arith, dialled))
        (ground (arith, lookup-insert p i true clients))
  | inr failed ↦ absurd (ground (arith, failed))
]

connect_all-AllIn :
    (dials : ℕ → Bool) (ps : List ℕ) (clients clients' : Clients)
    → connect_all dials ps clients ≡ ok clients'
    → AllIn ps clients'
unfolding connect_all connect_to_peer
connect_all-AllIn dials [] clients clients' h = tt
connect_all-AllIn dials (p ∷ ps) clients clients' h = elim (Bool-cases (dials p)) [
  | inl dialled ↦
      let rest : connect_all dials ps (insert p true clients) ≡ ok clients' =
        ground (arith, dialled) in
      (
        connect_all_keeps dials ps (insert p true clients) clients' p rest
            (ground (arith, lookup-insert p p true clients)),
        connect_all-AllIn dials ps (insert p true clients) clients' rest,
      )
  | inr failed ↦ absurd (ground (arith, failed))
]

active_among_lem :
    (state_of : ℕ → String) (ps : List ℕ) (clients : Clients)
    → AllIn ps clients
    → active_among state_of ps clients ≡ ok (up_among state_of ps)
unfolding active_among up_among
active_among_lem state_of [] clients h = refl
active_among_lem state_of (p ∷ ps) clients (found, rest) =
    ground (arith, found, active_among_lem state_of ps clients rest)

connect_all_dials :
    (dials : ℕ → Bool) (ps : List ℕ) (clients : Clients)
    → ((p : ℕ) → In p ps → dials p ≡ true)
    → (clients' : Clients) × (connect_all dials ps clients ≡ ok clients')
unfolding connect_all connect_to_peer
connect_all_dials dials [] clients h = (clients, refl)
connect_all_dials dials (p ∷ ps) clients h =
    rw (h p (inl refl)) (connect_all_dials dials ps (insert p true clients) (λ q i. h q (inr i)))

-- When gRPC dials every peer, ConnectAllPeers does not panic. A GetActivePeers after it does not panic
-- either, whatever states the connections have by then: it lists, in order, exactly the peers
-- whose connections are idle or ready.
pub connected_active :
    (dials : ℕ → Bool) (state_of : ℕ → String) (server_id : ℕ) (clients : Clients)
    → ((p : ℕ) → In p (peer_ids server_id) → dials p ≡ true)
    → (connect_all dials (peer_ids server_id) clients >>= λ connected.
        get_active_peers state_of server_id connected)
      ≡ ok (up_among state_of (peer_ids server_id))
unfolding get_active_peers
connected_active dials state_of server_id clients h =
    let ps = peer_ids server_id in
    let (connected, made) = connect_all_dials dials ps clients h in
    ap (λ r. r >>= λ x. active_among state_of ps x) made
    ∙ active_among_lem state_of ps connected (connect_all-AllIn dials ps clients connected made)
