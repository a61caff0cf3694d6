-- ===== src/Server/Persist.antt =====
-- server/raft_server.go: persistData, which applies a committed command to the disk store.
pub mod Moves
use advanced_group_chat_syst.Base.{
  ℕ, String, Bool, true, false, Option, none, some, List, [], ◌∷◌, Result, ok, panic, demand, ◌>>=◌,
  string_eq, ◌==◌, if◌then◌else◌,
}
use advanced_group_chat_syst.Pb.{
  User, Group, Action, Command, JoinChat, AppendChat, LikeMessage, UnLikeMessage, Logout, get_login,
  get_joinchat, get_append, get_like, get_unlike, get_logout,
}
use advanced_group_chat_syst.Storage.Backend.{Backend}
use advanced_group_chat_syst.Storage.Disk.{save_user, delete_user, join_group, remove_user_in_group}
use advanced_group_chat_syst.Storage.Messages.{append_message, like_message, unlike_message}

module _ (b : Backend) where
  open b use {Store}

  -- What a command leaves: the store, and the groups whose members are to be told.
  abbrev pub Applied : Type 0
  Applied = Result (Store × List String)

  unfoldable pub persist_join : ℕ → Option JoinChat → Store → Applied
  persist_join group_id payload s = do
    join ← demand payload
    user ← demand join.joineduser
    (s1, removed) ← remove_user_in_group b user.id join.currgroup s
    s2 ← if removed then join_group b group_id join.newgroup join.joineduser s1 else ok s1
    ok (s2, join.currgroup ∷ join.newgroup ∷ [])

  unfoldable pub persist_append : Option AppendChat → Store → Applied
  persist_append payload s = do
    req ← demand payload
    s' ← append_message b req s
    group ← demand req.group
    ok (s', group.groupname ∷ [])

  unfoldable pub persist_like : Option LikeMessage → Store → Applied
  persist_like payload s = do
    req ← demand payload
    s' ← like_message b req s
    group ← demand req.group
    ok (s', group.groupname ∷ [])

  unfoldable pub persist_unlike : Option UnLikeMessage → Store → Applied
  persist_unlike payload s = do
    req ← demand payload
    s' ← unlike_message b req s
    group ← demand req.group
    ok (s', group.groupname ∷ [])

  unfoldable pub persist_logout : Option Logout → Store → Applied
  persist_logout payload s = do
    logout ← demand payload
    user ← demand logout.user
    s1 ← delete_user b user.id s
    (s2, _) ← remove_user_in_group b user.id logout.currgroup s1
    ok (s2, logout.currgroup ∷ [])

  unfoldable pub persist_login : Option User → Store → Applied
  persist_login user s = do (s', _) ← save_user b user s; ok (s', [])

  -- persistData: the switch on the event. `group_id` is the id for a group that has to be made.
  unfoldable pub persist_command : ℕ → Command → Store → Applied
  unfolding persist_join persist_append persist_like persist_unlike persist_logout persist_login
  persist_command group_id command s =
      if command.event == "u"
      then persist_login (get_login command.action) s
      else if command.event == "j"
      then persist_join group_id (get_joinchat command.action) s
      else if command.event == "a"
      then persist_append (get_append command.action) s
      else if command.event == "l"
      then persist_like (get_like command.action) s
      else if command.event == "r"
      then persist_unlike (get_unlike command.action) s
      else if command.event == "q"
      then persist_logout (get_logout command.action) s
      else ok (s, [])

  -- The loop of commitEntries over what commitChanSender put on the channel: each command with the
  -- id that uuid gives to a group it may make. A nil command is a panic.
  unfoldable pub commit_entries : List (ℕ × Option Command) → Store → Result Store
  unfolding persist_command
  commit_entries [] s = ok s
  commit_entries ((group_id, payload) ∷ rest) s = do
    command ← demand payload
    (s', _) ← persist_command group_id command s
    commit_entries rest s'
