-- ===== src/Client/Commands/Numbers.antt =====
-- Numbers as text: what strconv.Itoa writes is what strconv.ParseUint reads.
use Prim.Native.Char.{Char, char, code}
use Prim.Native.String.append
use Prim.Native.String.{◌++◌ as text_append}
use advanced_group_chat_syst.Base.{
  ℕ, zero, suc, ◌+◌, ◌-◌, ◌*◌, ◌/◌, ◌%◌, ◌^◌, ◌<◌, ◌≤◌, ltb, leb, String, true, ◌≡◌, refl, sym, ap,
  ◌∙◌, inl, inr, Bool-cases, arith, nat_eq,
}
use advanced_group_chat_syst.Client.Text.{cons, empty, parse_from, parse_uint}
use advanced_group_chat_syst.Storage.Disk.{digit, itoa, itoa_from}

pub append_char : (c : Char) (s t : String) → text_append (cons c s) t ≡ cons c (text_append s t)
append_char c s t = λ i. append.cons c s t i

pub append_empty : (t : String) → text_append empty t ≡ t
append_empty t = λ i. append.nil t i

append_assoc : (s t u : String) → text_append (text_append s t) u ≡ text_append s (text_append t u)
append_assoc String.[] t u =
    ap (λ x. text_append x u) (append_empty t) ∙ sym (append_empty (text_append t u))
append_assoc (String.◌∷◌ c s) t u =
    ap (λ x. text_append x u) (append_char c s t)
    ∙ append_char c (text_append s t) u
    ∙ ap (cons c) (append_assoc s t u)
    ∙ sym (append_char c s (text_append t u))

-- A digit is one character, of the code 48 and the digit.
digit_char : (d : ℕ) → d < 10 → (c : Char) × (digit d ≡ cons c empty) × (code c ≡ 48 + d)
digit_char zero h = (char 48 tt, refl, refl)
digit_char (suc zero) h = (char 49 tt, refl, refl)
digit_char (suc (suc zero)) h = (char 50 tt, refl, refl)
digit_char (suc (suc (suc zero))) h = (char 51 tt, refl, refl)
digit_char (suc (suc (suc (suc zero)))) h = (char 52 tt, refl, refl)
digit_char (suc (suc (suc (suc (suc zero))))) h = (char 53 tt, refl, refl)
digit_char (suc (suc (suc (suc (suc (suc zero)))))) h = (char 54 tt, refl, refl)
digit_char (suc (suc (suc (suc (suc (suc (suc zero))))))) h = (char 55 tt, refl, refl)
digit_char (suc (suc (suc (suc (suc (suc (suc (suc zero)))))))) h = (char 56 tt, refl, refl)
digit_char (suc (suc (suc (suc (suc (suc (suc (suc (suc zero))))))))) h = (char 57 tt, refl, refl)
digit_char (suc (suc (suc (suc (suc (suc (suc (suc (suc (suc d)))))))))) h = absurd (omega arith)

parse_char :
    (n d : ℕ) (c : Char) (t : String)
    → code c ≡ 48 + d
    → d < 10
    → n * 10 + d < 2 ^ 32
    → parse_from n (cons c t) ≡ parse_from (n * 10 + d) t
unfolding parse_from
parse_char n d c t is small room =
    let low : leb 48 (code c) ≡ true = ground arith in
    let high : leb (code c) 57 ≡ true = ground arith in
    let value : n * 10 + (code c - 48) ≡ n * 10 + d = omega arith in
    let fits : ltb (n * 10 + d) (2 ^ 32) ≡ true = ground arith in rw (low, high, value, fits) refl

parse_digit :
    (n d : ℕ) (t : String)
    → d < 10
    → n * 10 + d < 2 ^ 32
    → parse_from n (text_append (digit d) t) ≡ parse_from (n * 10 + d) t
parse_digit n d t small room =
    let (c, is, at) = digit_char d small in
    ap (λ s. parse_from n (text_append s t)) is
    ∙ ap (parse_from n) (append_char c empty t ∙ ap (cons c) (append_empty t))
    ∙ parse_char n d c t at small room

parse_itoa_from :
    (fuel n : ℕ) (t : String)
    → n < fuel
    → n < 2 ^ 32
    → parse_from 0 (text_append (itoa_from fuel n) t) ≡ parse_from n t
unfolding itoa_from
parse_itoa_from zero n t enough room = absurd (omega arith)
parse_itoa_from (suc fuel) n t enough room = elim (Bool-cases (ltb n 10)) [
  | inl one ↦ rw one (
      parse_digit 0 n t (ground arith) (omega arith)
      ∙ ap (λ k. parse_from k t) (let e : 0 * 10 + n ≡ n = omega arith in e))
  | inr more ↦
      let ten : 10 ≤ n = ground arith in
      let back : n / 10 * 10 + n % 10 ≡ n = omega arith in
      rw more (
        ap (parse_from 0) (append_assoc (itoa_from fuel (n / 10)) (digit (n % 10)) t)
        ∙ parse_itoa_from fuel (n / 10) (text_append (digit (n % 10)) t) (omega arith) (omega arith)
        ∙ parse_digit (n / 10) (n % 10) t (omega arith) (omega arith)
        ∙ ap (λ k. parse_from k t) back)
]

append_nothing : (s : String) → text_append s empty ≡ s
append_nothing String.[] = append_empty empty
append_nothing (String.◌∷◌ c s) = append_char c s empty ∙ ap (cons c) (append_nothing s)

-- The number that Itoa writes for a uint32 is read back by ParseUint.
pub parse_uint-itoa : (n : ℕ) → n < 2 ^ 32 → parse_uint (itoa n) ≡ n
unfolding parse_uint itoa
parse_uint-itoa n room =
    ap (parse_from 0) (sym (append_nothing (itoa_from (suc n) n)))
    ∙ parse_itoa_from (suc n) n empty (omega arith) room
    ∙ (unfold parse_from in refl)
