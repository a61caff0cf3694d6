-- ===== src/Client/Session/Trimmed.antt =====
-- strings.Trim: a line that has been trimmed stays as it is.
use advanced_group_chat_syst.Base.{
  String, Bool, ◌&&◌, ◌≡◌, refl, ap, ◌∙◌, inl, inr, Bool-cases, string_eq,
}
use Prim.Native.Char.{Char}
use advanced_group_chat_syst.Client.Text.{trim_line, trim_left, trim_right, is_line_end, is_empty}

trim_right_twice :
    (test : Char → Bool) (s : String) → trim_right test (trim_right test s) ≡ trim_right test s
unfolding trim_right
trim_right_twice test String.[] = refl
trim_right_twice test (String.◌∷◌ c s) =
    elim (Bool-cases (test c && is_empty (trim_right test s))) [
      | inl gone ↦ rw gone refl
      | inr kept ↦ rw kept (rw (trim_right_twice test s) (rw kept refl))
    ]

trim_left_right :
    (test : Char → Bool) (s : String)
    → trim_left test (trim_right test (trim_left test s)) ≡ trim_right test (trim_left test s)
unfolding trim_left
trim_left_right test String.[] = unfold trim_right in refl
trim_left_right test (String.◌∷◌ c s) = elim (Bool-cases (test c)) [
  | inl skipped ↦ rw skipped (trim_left_right test s)
  | inr kept ↦ rw kept (unfold trim_right in rw kept (rw kept refl))
]

pub trim_line_twice : (s : String) → trim_line (trim_line s) ≡ trim_line s
unfolding trim_line
trim_line_twice s =
    ap (trim_right is_line_end) (trim_left_right is_line_end s)
    ∙ trim_right_twice is_line_end (trim_left is_line_end s)
