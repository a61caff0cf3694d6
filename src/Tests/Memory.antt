-- ===== src/Tests/Memory.antt =====
-- A store in memory, which has the laws that the development relies on: the key-value store is an
-- association list, and the bytes of a value are the value.
use advanced_group_chat_syst.Base.{
  ℕ, ℤ, pos, String, Bool, true, false, refl, sym, ap, ◌∙◌, Option, none, some, eq_of_some, List,
  [], length, Map, lookup, insert, delete, string_eq, lookup-insert, lookup-delete,
}
use advanced_group_chat_syst.Pb.{User, Group, LogEntry}
use advanced_group_chat_syst.Storage.Backend.{Backend, IsLawful}

pub data Bytes : Type 0 where
  user_bytes : User → Bytes
  group_bytes : Group → Bytes
  int_bytes : ℤ → Bytes
  log_bytes : List LogEntry → Bytes

abbrev to_user : Bytes → Option User × Bool
to_user (user_bytes u) = (some u, true)
to_user _ = (none, false)

abbrev to_group : Bytes → Option Group × Bool
to_group (group_bytes g) = (some g, true)
to_group _ = (none, false)

abbrev to_int : Bytes → ℤ × Bool
to_int (int_bytes n) = (n, true)
to_int _ = (pos 0, false)

abbrev to_log : Bytes → List LogEntry × Bool
to_log (log_bytes l) = (l, true)
to_log _ = ([], false)

abbrev to_count : Bytes → ℕ × Bool
to_count (log_bytes l) = (length l, true)
to_count _ = (0, false)

abbrev pub memory : Backend
memory = record {
  Store = Map String Bytes;
  Bytes = Bytes;
  get = λ k s. lookup k s;
  set = λ k v s. some (insert k v s);
  remove = λ k s. some (delete k s);
  encode_user = λ u. some (user_bytes u);
  decode_user = to_user;
  encode_group = λ g. some (group_bytes g);
  decode_group = to_group;
  encode_int = λ n. some (int_bytes n);
  decode_int = to_int;
  encode_log = λ l. some (log_bytes l);
  decode_log = to_log;
  count_entries = to_count;
  copy_user = λ u. u;
  copy_group = λ g. some g;
}

abbrev key : String → Map String Bytes → Option Bytes
key j s = lookup j s

pub memory-IsLawful : IsLawful memory
memory-IsLawful = record {
  get-set = λ k j v s t h. ap (key j) (sym (eq_of_some h)) ∙ lookup-insert k j v s;
  get-remove = λ k j s t h. ap (key j) (sym (eq_of_some h)) ∙ lookup-delete k j s;
  user_round = λ u v h. ap to_user (sym (eq_of_some h));
  group_round = λ g v h. ap to_group (sym (eq_of_some h));
  int_round = λ n v h. ap to_int (sym (eq_of_some h));
  log_round = λ l v h. ap to_log (sym (eq_of_some h));
  count_round = λ l v h. ap to_count (sym (eq_of_some h));
  copy_user_same = λ u. refl;
  copy_group_same = λ g. refl;
}
