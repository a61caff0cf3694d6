-- ===== src/Server/Peers.antt =====
-- server/raft_server.go: the cluster of five servers and the connections to the peers.
pub mod Active
use Prim.Native.String.{◌++◌ as text_append}
use advanced_group_chat_syst.Base.{
  ℕ, zero, suc, String, Bool, true, false, panic, ◌||◌, Option, none, some, List, [], ◌∷◌, Result,
  ok, demand, ◌>>=◌, Map, lookup, insert, nat_eq, string_eq, ◌==◌, if◌then◌else◌,
}
use advanced_group_chat_syst.Storage.Disk.{itoa}

-- The loop `for p := 1; p <= 5; p++`, with the rounds left and the number `p`.
unfoldable pub other_ids : ℕ → ℕ → ℕ → List ℕ
other_ids zero p server_id = []
other_ids (suc rounds) p server_id =
    let rest = other_ids rounds (suc p) server_id in if p == server_id then rest else p ∷ rest

-- The peers of NewServer.
unfoldable pub peer_ids : ℕ → List ℕ
unfolding other_ids
peer_ids server_id = other_ids 5 1 server_id

-- GetPeerAddr
unfoldable pub get_peer_addr : ℕ → String
unfolding itoa
get_peer_addr peer = text_append (text_append "172.30.100.10" (itoa peer)) ":12000"

-- peerClients: whether there is a connection, or nil. The state of a connection is read anew each time;
-- it is not in the map.
abbrev pub Clients : Type 0
Clients = Map ℕ Bool

-- ConnectToPeer; `dials` says whether grpc.Dial succeeds for a peer. When it fails, the connection is
-- nil, and reading its state for the log line is a panic.
unfoldable pub connect_to_peer : (ℕ → Bool) → ℕ → Clients → Result Clients
connect_to_peer dials peer clients = if dials peer then ok (insert peer true clients) else panic

-- ReconnectToPeer
unfoldable pub reconnect_to_peer : (ℕ → Bool) → ℕ → Clients → Result Clients
unfolding connect_to_peer
reconnect_to_peer dials peer clients = connect_to_peer dials peer clients

-- The loop of ConnectAllPeers, over the peers that it dials.
unfoldable pub connect_all : (ℕ → Bool) → List ℕ → Clients → Result Clients
unfolding connect_to_peer
connect_all dials [] clients = ok clients
connect_all dials (p ∷ ps) clients = do
  next ← connect_to_peer dials p clients
  connect_all dials ps next

-- DisconnectPeer
unfoldable pub disconnect_peer : ℕ → Clients → Clients
disconnect_peer peer clients = elim (lookup peer clients) [
  | none ↦ clients
  | some connected ↦ if connected then insert peer false clients else clients
]

-- checkPeerConnection; `state_of` is the state that the connection to a peer has when it is read.
-- The state of a nil connection is a panic.
unfoldable pub check_peer_connection : (ℕ → String) → ℕ → Clients → Result Bool
check_peer_connection state_of peer clients = do
  connected ← demand (lookup peer clients)
  if connected then ok (state_of peer == "IDLE" || state_of peer == "READY") else panic

unfoldable pub active_among : (ℕ → String) → List ℕ → Clients → Result (List ℕ)
unfolding check_peer_connection
active_among state_of [] clients = ok []
active_among state_of (p ∷ ps) clients = do
  active ← check_peer_connection state_of p clients
  rest ← active_among state_of ps clients
  ok (if active then p ∷ rest else rest)

-- GetActivePeers
unfoldable pub get_active_peers : (ℕ → String) → ℕ → Clients → Result (List ℕ)
unfolding active_among peer_ids
get_active_peers state_of server_id clients = active_among state_of (peer_ids server_id) clients

-- DisconnectAll; `order` is the order in which the range visits the map.
unfoldable pub disconnect_all : List ℕ → Clients → Clients
unfolding disconnect_peer
disconnect_all [] clients = clients
disconnect_all (p ∷ order) clients = disconnect_all order (disconnect_peer p clients)

-- The address that a server listens on, in main/server/chat_server.go.
unfoldable pub listen_address : ℕ → String
unfolding itoa
listen_address server_id = text_append (text_append "172.30.100.10" (itoa server_id)) ":12000"
