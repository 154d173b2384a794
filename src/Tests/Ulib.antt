-- ===== src/Tests/Ulib.antt =====
-- Runs of the model of xv6/user/ulib.c and printf.c.
use p.Prelude.{◌≡◌, refl, true, [], ◌∷◌, arith}
use p.Xv6.Ulib.{atoi, printint, print_digits}
use p.Xv6.Ulib.Digits.{atoi-printint}

-- The number 4096 is printed as 4 0 9 6.
printed : printint 4096 10 true ≡ 52 ∷ 48 ∷ 57 ∷ 54 ∷ []
unfolding printint print_digits
printed = refl

atoi-printint_example : atoi (printint 4096 10 true) ≡ 4096
atoi-printint_example = atoi-printint 4096 true (omega arith) refl
