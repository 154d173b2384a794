-- ===== src/Xv6/Ulib/Digits.antt =====
-- What printint (xv6/user/printf.c) prints in base 10, atoi (xv6/user/ulib.c) reads back.
use p.Prelude.{
  ℕ, zero, suc, ◌+◌, ◌-◌, ◌*◌, ◌/◌, ◌%◌, ◌^◌, ◌<◌, ◌≡◌, refl, ap, ◌∙◌, Bool, true, false, ◌&&◌, inl,
  inr, Bool-cases, List, [], ◌∷◌, leb, ◌==◌, get_or, passes, passes_lem, ==_iff, arith,
}
use p.Word.{Word, Byte, word_mod, is_neg}
use p.Xv6.Ulib.{atoi, atoi_from, digits_of, print_digits, printint}

digit_table : passes (λ r. get_or digits_of r 0 == 48 + r) 0 10 ≡ true
unfolding passes
digit_table = refl

digit : (r : ℕ) → r < 10 → get_or digits_of r 0 ≡ 48 + r
digit r h = (==_iff _ _).0 (passes_lem _ 10 r digit_table h)

-- 2 ^ fuel
power : ℕ → ℕ
power zero = 1
power (suc fuel) = 2 * power fuel

atoi_from-digit :
    (x : Word) (acc : List Byte)
    → x < word_mod
    → atoi_from (get_or digits_of (x % 10) 0 ∷ acc) (x / 10) ≡ atoi_from acc x
unfolding atoi_from
atoi_from-digit x acc h =
    let d : get_or digits_of (x % 10) 0 ≡ 48 + x % 10 = digit (x % 10) (omega arith) in
    let in_range : (leb 48 (48 + x % 10) && leb (48 + x % 10) 57) ≡ true = ground arith in
    let back : (x / 10 * 10 + (48 + x % 10) + word_mod - 48) % word_mod ≡ x = omega arith in
    rw (d, in_range, back) refl

atoi_from-print_digits :
    (fuel : ℕ) (x : Word) (acc : List Byte)
    → x < power fuel
    → 0 < fuel
    → x < word_mod
    → atoi_from (print_digits fuel 10 x acc) 0 ≡ atoi_from acc x
unfolding print_digits power
atoi_from-print_digits zero x acc h pos small = elim pos [ ]
atoi_from-print_digits (suc fuel) x acc h pos small = elim (Bool-cases (x / 10 == 0)) [
  | inl last ↦
      let none_left : 0 ≡ x / 10 = ground arith in
      rw last
        (ap (atoi_from (get_or digits_of (x % 10) 0 ∷ acc)) none_left ∙ atoi_from-digit x acc small)
  | inr more ↦
      let some_left : 0 < x / 10 = ground arith in
      rw more (
        atoi_from-print_digits fuel (x / 10) _ (omega arith) (positive fuel (omega arith))
          (omega arith)
        ∙ atoi_from-digit x acc small)
]
  where
    positive : (fuel : ℕ) → 1 < power fuel → 0 < fuel
    positive zero h = absurd (omega arith)
    positive (suc fuel) h = omega arith

-- printint of a word in base 10 prints a number that atoi reads back, unless it prints a sign.
pub atoi-printint :
    (x : Word) (sgn : Bool) → x < 2 ^ 32 → (sgn && is_neg x) ≡ false → atoi (printint x 10 sgn) ≡ x
unfolding atoi printint
atoi-printint x sgn h plain = rw plain (
    atoi_from-print_digits 32 x [] (unfold power in omega arith) (omega arith) h
    ∙ unfold atoi_from in refl)
