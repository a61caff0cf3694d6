-- ===== src/Storage/Backend.antt =====
-- What server/storage.go uses of code outside the repository: the key-value store of raft-badger,
-- the encoding of encoding/gob, and the copies of jinzhu/copier. All of it is a parameter, with what
-- is documented of it as laws.
use advanced_group_chat_syst.Base.{
  ℕ, ℤ, String, Bool, true, ◌≡◌, Option, none, some, List, length, if◌then◌else◌, ◌==◌, string_eq,
}
use advanced_group_chat_syst.Pb.{User, Group, LogEntry}

-- A write or a deletion may fail (`none`), and so may an encoding. A decoder leaves a value in its
-- variable and says whether it succeeded. `count_entries` is the decoder that HasData uses, into
-- another type of entries, of which only the number is read.
pub record Backend : Type 1 where
  pub Store : Type 0
  pub Bytes : Type 0
  pub get : String → Store → Option Bytes
  pub set : String → Bytes → Store → Option Store
  pub remove : String → Store → Option Store
  pub encode_user : User → Option Bytes
  pub decode_user : Bytes → Option User × Bool
  pub encode_group : Group → Option Bytes
  pub decode_group : Bytes → Option Group × Bool
  pub encode_int : ℤ → Option Bytes
  pub decode_int : Bytes → ℤ × Bool
  pub encode_log : List LogEntry → Option Bytes
  pub decode_log : Bytes → List LogEntry × Bool
  pub count_entries : Bytes → ℕ × Bool
  pub copy_user : Option User → Option User
  pub copy_group : Group → Option Group

-- A read gives what was written last, and what was encoded decodes to itself; a copy is equal.
pub record IsLawful (b : Backend) : Type 0 where
  pub get-set :
      (k j : String) (v : b.Bytes) (s t : b.Store)
      → b.set k v s ≡ some t
      → b.get j t ≡ (if k == j then some v else b.get j s)
  pub get-remove :
      (k j : String) (s t : b.Store)
      → b.remove k s ≡ some t
      → b.get j t ≡ (if k == j then none else b.get j s)
  pub user_round :
      (u : User) (v : b.Bytes) → b.encode_user u ≡ some v → b.decode_user v ≡ (some u, true)
  pub group_round :
      (g : Group) (v : b.Bytes) → b.encode_group g ≡ some v → b.decode_group v ≡ (some g, true)
  pub int_round : (n : ℤ) (v : b.Bytes) → b.encode_int n ≡ some v → b.decode_int v ≡ (n, true)
  pub log_round :
      (l : List LogEntry) (v : b.Bytes) → b.encode_log l ≡ some v → b.decode_log v ≡ (l, true)
  pub count_round :
      (l : List LogEntry) (v : b.Bytes)
      → b.encode_log l ≡ some v
      → b.count_entries v ≡ (length l, true)
  pub copy_user_same : (u : User) → b.copy_user (some u) ≡ some u
  pub copy_group_same : (g : Group) → b.copy_group g ≡ some g
