-- ===== src/Text/Digits.antt =====
-- The digits of a number, read back.
use aws_ssm_kit.Base.{
  ℕ, zero, suc, ◌+◌, ◌*◌, ◌/◌, ◌%◌, ◌<◌, ◌≡◌, ap, ◌∙◌, some, [], ◌∷◌, ◌++◌, ltb, arith, Bool-cases,
  Option-cases, inl, inr,
}
use aws_ssm_kit.Text.{Text, Runtime, digits, decimal_text, decimal_value}

module _ (u : Runtime) (reads : (d : ℕ) → d < 10 → u.decimal (48 + d) ≡ some d) where
  decimal_value-append :
      (acc n d : ℕ) (s : Text)
      → decimal_value u acc s ≡ some n
      → d < 10
      → decimal_value u acc (s ++ ((48 + d) ∷ [])) ≡ some (n * 10 + d)
  unfolding decimal_value
  decimal_value-append acc n d [] h small = rw (reads d small) (ground arith)
  decimal_value-append acc n d (c ∷ s) h small = elim (Option-cases (u.decimal c)) [
    | inl e ↦ absurd (ground (arith, e))
    | inr (b, e) ↦
        let rest : decimal_value u (acc * 10 + b) s ≡ some n = rw (e, decimal_value) at h in
        rw (e, decimal_value) (decimal_value-append (acc * 10 + b) n d s rest small)
  ]

  digits_value : (fuel n : ℕ) → n < fuel → decimal_value u 0 (digits fuel n) ≡ some n
  unfolding digits decimal_value
  digits_value zero n h = absurd (omega arith)
  digits_value (suc fuel) n h = elim (Bool-cases (ltb n 10)) [
    | inl e ↦ rw (e, reads n (ground arith)) (ap some (omega arith))
    | inr e ↦
        let rest = digits_value fuel (n / 10) (ground arith) in
        rw e (
          decimal_value-append 0 (n / 10) (n % 10) (digits fuel (n / 10)) rest (omega arith)
          ∙ ap some (omega arith))
  ]

  -- `int(str(n))` is `n`.
  pub decimal_text_value : (n : ℕ) → decimal_value u 0 (decimal_text n) ≡ some n
  unfolding decimal_text
  decimal_text_value n = digits_value (n + 1) n (omega arith)
