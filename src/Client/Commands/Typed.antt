-- ===== src/Client/Commands/Typed.antt =====
-- What a typed line becomes.
use Prim.Native.Char.{Char, char, code}
use text.Mathlib.TextEquality.{Char-path}
use Prim.Native.String.{◌++◌ as text_append}
use advanced_group_chat_syst.Base.{
  ℕ, ◌<◌, ◌^◌, String, true, false, ◌≡◌, ◌≢◌, refl, sym, ap, ◌∙◌, inl, inr, some, Bool-cases, List,
  [], ◌∷◌, ok, nat_beq, nat_beq_iff, string_eq, eq_iff, ◌==◌, arith,
}
use advanced_group_chat_syst.Pb.{User, Group, append_request, like_request}
use advanced_group_chat_syst.Client.Text.{trim_line, split, split_on, join, cons, empty}
use advanced_group_chat_syst.Storage.Disk.{itoa}
use advanced_group_chat_syst.Client.Commands.Numbers.{append_char, append_empty, parse_uint-itoa}
use advanced_group_chat_syst.Client.Commands.{process_message, no_rpc}

abbrev space_char : Char
space_char = char 32 tt

split_parts : (s : String) → (w : String) × (ws : List String) × (split s ≡ w ∷ ws)
unfolding split split_on
split_parts String.[] = (empty, [], refl)
split_parts (String.◌∷◌ c s) = elim (Bool-cases (nat_beq (code c) 32)) [
  | inl space ↦ (empty, split s, rw space refl)
  | inr other ↦ let (w, ws, e) = split_parts s in (cons c w, ws, rw (other, e) refl)
]

split_space :
    (c : Char) (s : String) → nat_beq (code c) 32 ≡ true → split (cons c s) ≡ empty ∷ split s
unfolding split split_on
split_space c s h = rw h refl

split_other :
    (c : Char) (s w : String) (ws : List String)
    → nat_beq (code c) 32 ≡ false
    → split s ≡ w ∷ ws
    → split (cons c s) ≡ cons c w ∷ ws
unfolding split split_on
split_other c s w ws h e = rw (h, e) refl

append_one : (c : Char) (t : String) → text_append (cons c empty) t ≡ cons c t
append_one c t = append_char c empty t ∙ ap (cons c) (append_empty t)

join-space :
    (w : String) (ws : List String) → join (empty ∷ w ∷ ws) ≡ cons space_char (join (w ∷ ws))
unfolding join
join-space w ws = append_empty _ ∙ append_one space_char _

join-cons :
    (c : Char) (w : String) (ws : List String) → join (cons c w ∷ ws) ≡ cons c (join (w ∷ ws))
unfolding join
join-cons c w [] = refl
join-cons c w (v ∷ ws) = append_char c w _

-- The parts of a text between spaces, joined by spaces, are the text.
pub join-split : (s : String) → join (split s) ≡ s
unfolding join
join-split String.[] = unfold split in refl
join-split (String.◌∷◌ c s) =
    let (w, ws, e) = split_parts s in
    let rest : join (w ∷ ws) ≡ s = ap join (sym e) ∙ join-split s in
    elim (Bool-cases (nat_beq (code c) 32)) [
      | inl space ↦
          ap join (split_space c s space ∙ ap (λ l. empty ∷ l) e)
          ∙ join-space w ws
          ∙ ap (cons space_char) rest
          ∙ ap (λ d. cons d s) (sym (Char-path c space_char ((nat_beq_iff (code c) 32).0 space)))
      | inr other ↦ ap join (split_other c s w ws other e) ∙ join-cons c w ws ∙ ap (cons c) rest
    ]

-- The command "a" and a text, as ProcessMessage takes them from the line.
split_typed : (text : String) → split (text_append "a " text) ≡ "a" ∷ split text
unfolding split split_on
split_typed text =
    ap split
      (append_char (char 97 tt) " " text ∙ ap (cons (char 97 tt)) (append_one space_char text))

-- A user with a name, in a group with a name, who types `a`, a space and a text that ends in no line
-- break, with any line ending after it, appends exactly that text, whatever spaces it has, as
-- a message of the user without likes to the group.
pub typed_append :
    (line text : String) (user : User) (group : Group)
    → trim_line line ≡ text_append "a " text
    → user.name ≢ ""
    → group.groupname ≢ ""
    → process_message line (record { active_user = user; group = some group })
      ≡ ok (record {
        store = record { active_user = user; group = some group };
        request = append_request (record {
          chatmessage = some (record { messaged_by = some user; message = text; liked_by = [] });
          group = some group;
        });
        cmd = "a";
        rpc = no_rpc;
      })
unfolding process_message
typed_append line text user group typed named grouped =
    let args = ap split typed ∙ split_typed text in
    let named' : (user.name == "") ≡ false = ground (arith, eq_iff user.name "") in
    let grouped' : (group.groupname == "") ≡ false = ground (arith, eq_iff group.groupname "") in
    rw args (rw (named', grouped', join-split) refl)

split_liked : (text : String) → split (text_append "l " text) ≡ "l" ∷ split text
unfolding split split_on
split_liked text =
    ap split
      (append_char (char 108 tt) " " text ∙ ap (cons (char 108 tt)) (append_one space_char text))

-- A user with a name, in a group with a name, who types `l`, a space and the number of a message, as a
-- decimal below 2^32, likes the message of that number.
pub typed_like :
    (line : String) (number : ℕ) (user : User) (group : Group)
    → trim_line line ≡ text_append "l " (itoa number)
    → number < 2 ^ 32
    → user.name ≢ ""
    → group.groupname ≢ ""
    → process_message line (record { active_user = user; group = some group })
      ≡ ok (record {
        store = record { active_user = user; group = some group };
        request =
            like_request (record { likeduser = some user; messageid = number; group = some group });
        cmd = "l";
        rpc = no_rpc;
      })
unfolding process_message
typed_like line number user group typed small named grouped =
    let args = ap split typed ∙ split_liked (itoa number) in
    let named' : (user.name == "") ≡ false = ground (arith, eq_iff user.name "") in
    let grouped' : (group.groupname == "") ≡ false = ground (arith, eq_iff group.groupname "") in
    rw args (rw (named', grouped', join-split, parse_uint-itoa number small) refl)
