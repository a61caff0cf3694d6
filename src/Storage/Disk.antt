-- ===== src/Storage/Disk.antt =====
-- server/storage.go: users and groups on the disk.
pub mod Membership
pub mod Leaving
use Prim.Native.String.{◌++◌ as text_append}
use advanced_group_chat_syst.Base.{
  ℕ, zero, suc, ◌/◌, ◌%◌, ltb, String, Bool, true, false, ◌||◌, Option, none, some, List, [],
  Result, ok, panic, demand, ◌>>=◌, Map, lookup, insert, delete, nat_eq, string_eq, ◌==◌,
  if◌then◌else◌,
}
use advanced_group_chat_syst.Pb.{User, get_id, get_name, Group}
use advanced_group_chat_syst.Storage.Backend.{Backend}

abbrev pub digit : ℕ → String
digit d =
    if d == 0
    then "0"
    else if d == 1
    then "1"
    else if d == 2
    then "2"
    else if d == 3
    then "3"
    else if d == 4
    then "4"
    else if d == 5
    then "5"
    else if d == 6
    then "6"
    else if d == 7
    then "7"
    else if d == 8
    then "8"
    else "9"

-- strconv.Itoa of a number that is not negative; the fuel is more than its number of digits.
unfoldable pub itoa_from : ℕ → ℕ → String
itoa_from zero n = ""
itoa_from (suc fuel) n =
    let rest = text_append (itoa_from fuel (n / 10)) (digit (n % 10)) in
    if ltb n 10 then digit n else rest

unfoldable pub itoa : ℕ → String
unfolding itoa_from
itoa n = itoa_from (suc n) n

-- The name under which a participant is listed; "" if there is none.
abbrev pub participant : ℕ → Group → String
participant user_id group = elim (lookup user_id group.participants) [
  | none ↦ ""
  | some name ↦ name
]

module _ (b : Backend) where
  open b use {
    Store, Bytes, get, set, remove, encode_user, decode_user, encode_group, decode_group, copy_user,
    copy_group,
  }

  -- SaveUser; the result says whether it returned no error.
  unfoldable pub save_user : Option User → Store → Result (Store × Bool)
  unfolding itoa
  save_user user s = elim (copy_user user) [
    | none ↦ ok (s, false)
    | some usercopy ↦ do
      bytes ← demand (encode_user usercopy)
      s' ← demand (set (itoa usercopy.id) bytes s)
      ok (s', true)
  ]

  -- GetUser: what the decoder left, also if it failed.
  unfoldable pub get_user : ℕ → Store → Option User
  unfolding itoa
  get_user user_id s = elim (get (itoa user_id) s) [
    | none ↦ none
    | some bytes ↦ (decode_user bytes).0
  ]

  -- DeleteUser
  unfoldable pub delete_user : ℕ → Store → Result Store
  unfolding itoa
  delete_user user_id s = demand (remove (itoa user_id) s)

  -- GetGroup, with its "found" flag.
  unfoldable pub get_group : String → Store → Option Group × Bool
  get_group groupname s = elim (get groupname s) [
    | none ↦ (none, false)
    | some bytes ↦ decode_group bytes
  ]

  -- UpdateGroup: false if the copy failed.
  unfoldable pub update_group : String → Group → Store → Result (Store × Bool)
  update_group groupname group s = elim (copy_group group) [
    | none ↦ ok (s, false)
    | some groupcopy ↦ do
      bytes ← demand (encode_group groupcopy)
      s' ← demand (set groupname bytes s)
      ok (s', true)
  ]

  -- The second half of JoinGroup; `group_id` is what uuid.New().ID() gave.
  unfoldable pub create_group : ℕ → String → Option User → Store → Result Store
  create_group group_id groupname user s = do
    (s', _) ←
        update_group groupname
          (record {
            group_id = group_id;
            groupname = groupname;
            participants = insert (get_id user) (get_name user) [];
            messages = [];
          })
          s
    ok s'

  -- JoinGroup
  unfoldable pub join_group : ℕ → String → Option User → Store → Result Store
  join_group group_id groupname user s =
      let (read, found) = get_group groupname s in
      if found
      then (do
        group ← demand read
        (s', updated) ←
            update_group groupname
              (record group {
                participants = insert (get_id user) (get_name user) group.participants;
              })
              s
        if updated then ok s' else create_group group_id groupname user s')
      else create_group group_id groupname user s

  -- RemoveUserInGroup
  unfoldable pub remove_user_in_group : ℕ → String → Store → Result (Store × Bool)
  remove_user_in_group user_id groupname s =
      let (read, found) = get_group groupname s in
      if found
      then (do
        group ← demand read
        if participant user_id group == ""
            then ok (s, true)
            else update_group groupname
                (record group { participants = delete user_id group.participants }) s)
      else ok (s, true)
