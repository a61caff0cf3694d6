-- ===== src/Storage/Messages.antt =====
-- server/storage.go: AppendMessage, LikeMessage and UnLikeMessage.
pub mod Likes
pub mod Numbers
use advanced_group_chat_syst.Base.{
  ℕ, ◌%◌, ◌^◌, nat_beq, String, Bool, true, false, Option, none, some, List, [], length, Result, ok,
  panic, demand, ◌>>=◌, Map, lookup, insert, delete, nat_eq, string_eq, ◌==◌, if◌then◌else◌,
}
use advanced_group_chat_syst.Pb.{User, ChatMessage, Group, AppendChat, LikeMessage, UnLikeMessage}
use advanced_group_chat_syst.Storage.Backend.{Backend}
use advanced_group_chat_syst.Storage.Disk.{get_group, update_group}

-- `group.Messages[uint32(len(group.Messages))] = message`
unfoldable pub add_message : Option ChatMessage → Group → Group
add_message message group = record group {
  messages = insert (length group.messages % 2 ^ 32) message group.messages;
}

-- The body of LikeMessage once the group is read; `none` where the source returns early.
unfoldable pub add_like : Option User → ℕ → Group → Result (Option Group)
add_like user number group = elim (lookup number group.messages) [
  | none ↦ ok none
  | some stored ↦ do
    message ← demand stored
    author ← demand message.messaged_by
    liker ← demand user
    if author.name == liker.name then ok none else elim (lookup liker.name message.liked_by) [
      | some _ ↦ ok none
      | none ↦
          let liked_by = if nat_beq (length message.liked_by) 0 then [] else message.liked_by in
          ok (
            some (record group {
              messages =
                  insert number (some (record message { liked_by = insert liker.name "" liked_by }))
                    group.messages;
            }))
    ]
]

-- The body of UnLikeMessage once the group is read.
unfoldable pub remove_like : Option User → ℕ → Group → Result (Option Group)
remove_like user number group = elim (lookup number group.messages) [
  | none ↦ ok none
  | some stored ↦ do
    message ← demand stored
    author ← demand message.messaged_by
    liker ← demand user
    if author.name == liker.name then ok none else elim (lookup liker.name message.liked_by) [
      | none ↦ ok none
      | some _ ↦ ok (
          some (record group {
            messages =
                insert number
                  (some (record message { liked_by = delete liker.name message.liked_by }))
                  group.messages;
          }))
    ]
]

module _ (b : Backend) where
  open b use {Store}

  -- Read a group, change it, and write it back; a change to `none` writes nothing.
  unfoldable pub change_group : String → (Group → Result (Option Group)) → Store → Result Store
  change_group groupname change s =
      let (read, found) = get_group b groupname s in
      if found
      then (do
        group ← demand read
        changed ← change group
        elim changed [
          | none ↦ ok s
          | some group' ↦ do (s', _) ← update_group b groupname group' s; ok s'
        ])
      else ok s

  unfoldable pub append_message : AppendChat → Store → Result Store
  unfolding change_group add_message
  append_message req s = do
    target ← demand req.group
    change_group target.groupname (λ group. ok (some (add_message req.chatmessage group))) s

  unfoldable pub like_message : LikeMessage → Store → Result Store
  unfolding change_group add_like
  like_message req s = do
    target ← demand req.group
    change_group target.groupname (add_like req.likeduser req.messageid) s

  unfoldable pub unlike_message : UnLikeMessage → Store → Result Store
  unfolding change_group remove_like
  unlike_message req s = do
    target ← demand req.group
    change_group target.groupname (remove_like req.unlikeduser req.messageid) s
