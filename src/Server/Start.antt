-- ===== src/Server/Start.antt =====
-- server/raft_server.go: NewServer.
use advanced_group_chat_syst.Base.{ℕ, Bool, Result, ok, ◌>>=◌, pos, List, [], map, nat_eq}
use advanced_group_chat_syst.Raft.State.{ConsensusModule, Persisted, new_consensus_module}
use advanced_group_chat_syst.Server.Peers.{Clients, peer_ids, connect_all}

-- The fields that NewServer sets, less the channels and the listener.
pub record Server : Type 0 where
  pub server_id : ℕ
  pub peer_ids : List ℕ
  pub clients : Clients
  pub cm : ConsensusModule

-- NewServer; `dials` says whether gRPC dials a peer, and the last two arguments are what HasData and
-- GetState return.
unfoldable pub new_server : (ℕ → Bool) → ℕ → Bool → Persisted → Result Server
unfolding peer_ids connect_all new_consensus_module
new_server dials server_id has_data stored =
    let peers = peer_ids server_id in
    do
      clients ← connect_all dials peers []
      ok (record {
        server_id = server_id;
        peer_ids = peers;
        clients = clients;
        cm = new_consensus_module (pos server_id) (map pos peers) has_data stored;
      })
