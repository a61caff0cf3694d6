-- ===== src/Server/Connections.antt =====
-- server/server_store.go: the streams of the clients and the active users.
use advanced_group_chat_syst.Base.{
  ℕ, String, Bool, ◌&&◌, none, some, List, [], ◌∷◌, ◌++◌, Map, lookup, insert, delete, nat_eq,
  string_eq, ◌==◌, if◌then◌else◌,
}
use advanced_group_chat_syst.Pb.{User}

-- A client of a stream: its group and its name.
pub record Client : Type 0 where
  pub group : String
  pub name : String

abbrev pub same_client : Client → Client → Bool
same_client a b = a.group == b.group && a.name == b.name

-- InMemoryConnStore: a stream is known by a number.
abbrev pub ConnStore : Type 0
ConnStore = Map ℕ Client

-- AddConn
unfoldable pub add_conn : ℕ → Client → ConnStore → ConnStore
add_conn stream client conns = elim (lookup stream conns) [
  | none ↦ insert stream client conns
  | some current ↦ if same_client current client then conns else insert stream client conns
]

-- RemoveConn: Go visits the streams of the map in some order, here an argument.
unfoldable pub remove_conn : List ℕ → Client → ConnStore → ConnStore
remove_conn [] client conns = conns
remove_conn (stream ∷ order) client conns =
    let rest = remove_conn order client conns in
    elim (lookup stream conns) [
      | none ↦ rest
      | some current ↦ if same_client client current then delete stream conns else rest
    ]

-- InMememoryActiveUsersStore
pub record ActiveUsers : Type 0 where
  pub users : List User
  pub groups : Map ℕ String

-- AddUser, of a user that is not nil.
unfoldable pub add_user : User → String → ActiveUsers → ActiveUsers
add_user user groupname active = record {
  users = active.users ++ user ∷ [];
  groups = insert user.id groupname active.groups;
}
