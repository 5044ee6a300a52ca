-- ===== src/Application/Secrets/Commands/Quoted.antt =====
-- The place of the id of a secret in the command of a relay.
use aws_ssm_kit.Base.{
  ℕ, ◌≡◌, refl, sym, ap, ◌∙◌, Bool, true, false, ◌||◌, List, [], ◌∷◌, ◌++◌, ◌==◌, any, All, arith,
  Bool-cases, inl, inr, ◌⊎◌,
}
use aws_ssm_kit.Errors.{ok, then_do-eq-ok}
use aws_ssm_kit.Text.{Text, Runtime, codes, split, has_char, is_decimal, has_part, map_text}
use aws_ssm_kit.Text.Regex.{one_of, fullmatch, word}
use aws_ssm_kit.Text.Regex.Classes.{Uses, Uses-times, Uses-up_to, Uses-word, fullmatch-All}
use aws_ssm_kit.Application.Secrets.Commands.{
  is_name_char, secret_name_pattern, secret_arn_pattern, validate_remote_secret_id,
  build_remote_secret_command, build_persistent_remote_secret_command, wrap_command, before_id,
  after_id, windows_shell, unix_shell, unix_names,
}

split_last : (c : ℕ) (s : Text) → has_char c s ≡ false → split c s ≡ s ∷ []
unfolding split has_char
split_last c [] h = refl
split_last c (d ∷ s) h = ground (arith, split_last c s)

split_part :
    (c : ℕ) (s rest : Text) → has_char c s ≡ false → split c (s ++ (c ∷ rest)) ≡ s ∷ split c rest
unfolding split has_char
split_part c [] rest h = ground arith
split_part c (d ∷ s) rest h = ground (arith, split_part c s rest)

-- The characters that end or open a quotation, or that a shell expands inside of one.
abbrev pub is_special : ℕ → Bool
is_special c =
    c == 39 || c == b'"' || c == b'$' || c == b'`' || c == 92 || c == b';' || c == b' ' || c == 10

abbrev pub IsPlain : ℕ → Type 0
IsPlain c = is_special c ≡ false

name_char-IsPlain : (c : ℕ) → is_name_char c ≡ true → IsPlain c
name_char-IsPlain c h = ground arith

ordinary_text : (s : Text) → any is_special s ≡ false → All IsPlain s
ordinary_text [] h = tt
ordinary_text (c ∷ s) h = (ground arith, ordinary_text s (ground arith))

ordinary_word : (s : Text) → any is_special s ≡ false → Uses IsPlain (word s)
ordinary_word s h = Uses-word IsPlain s (ordinary_text s h)

All-without : (c : ℕ) (s : Text) → is_special c ≡ true → All IsPlain s → has_char c s ≡ false
unfolding has_char
All-without c [] h v = refl
All-without c (d ∷ s) h v = elim (Bool-cases (d == c)) [
  | inl e ↦ absurd (let at : d ≡ c = ground arith in not_both d (ap is_special at ∙ h) v.0)
  | inr e ↦ ground (arith, All-without c s h v.1)
]
  where
    not_both : (d : ℕ) → is_special d ≡ true → IsPlain d → ⊥
    not_both d h k = true_false (sym h ∙ k)
      where
        true_false : ◌≡◌ {A = Bool} true false → ⊥
        true_false e = absurd (cc)

module _ (u : Runtime) (digits_plain : (c : ℕ) → is_decimal u c ≡ true → IsPlain c) where
  name-Uses : Uses IsPlain secret_name_pattern
  unfolding secret_name_pattern
  name-Uses = (
    Uses-times IsPlain 1 (one_of is_name_char) name_char-IsPlain,
    Uses-up_to IsPlain 511 (one_of is_name_char) name_char-IsPlain,
  )

  arn-Uses : Uses IsPlain (secret_arn_pattern u)
  unfolding secret_arn_pattern
  arn-Uses = (
    ordinary_word (codes "arn:") refl,
    (
      (
        ordinary_word (codes "aws") refl,
        (ordinary_word (codes "aws-cn") refl, ordinary_word (codes "aws-us-gov") refl),
      ),
      (
        ordinary_word (codes ":secretsmanager:") refl,
        (
          (λ c h. ground arith, λ c h. ground arith),
          (
            λ c h. ground arith,
            (
              Uses-times IsPlain 12 (one_of (is_decimal u)) digits_plain,
              (ordinary_word (codes ":secret:") refl, name-Uses),
            ),
          ),
        ),
      ),
    ),
  )

  valid_id-IsPlain : (id : Text) → validate_remote_secret_id u id ≡ ok tt → All IsPlain id
  unfolding validate_remote_secret_id
  valid_id-IsPlain id h = elim (Bool-cases (fullmatch secret_name_pattern id)) [
    | inl e ↦ fullmatch-All IsPlain secret_name_pattern id name-Uses e
    | inr e ↦ elim (Bool-cases (fullmatch (secret_arn_pattern u) id)) [
      | inl f ↦ fullmatch-All IsPlain (secret_arn_pattern u) id arn-Uses f
      | inr f ↦ absurd (ground arith)
    ]
  ]

-- the command, cut at its single quotes
abbrev pub quoted_parts : Text → List Text
quoted_parts id =
    codes "aws secretsmanager get-secret-value --secret-id "
    ∷ id
    ∷ codes " --query SecretString --output text"
    ∷ []

split_quoted :
    (id : Text) → All IsPlain id → split 39 (before_id ++ id ++ after_id) ≡ quoted_parts id
unfolding has_char
split_quoted id plain =
    split_part 39 (codes "aws secretsmanager get-secret-value --secret-id ") (id ++ after_id) refl
    ∙ ap (λ l. codes "aws secretsmanager get-secret-value --secret-id " ∷ l)
        (split_part 39 id (codes " --query SecretString --output text")
            (All-without 39 id refl plain)
          ∙ ap (λ l. id ∷ l) (split_last 39 (codes " --query SecretString --output text") refl))

has_char-append :
    (c : ℕ) (s t : Text) → has_char c s ≡ false → has_char c t ≡ false → has_char c (s ++ t) ≡ false
unfolding has_char
has_char-append c [] t h k = k
has_char-append c (d ∷ s) t h k = ground (arith, has_char-append c s t)

without_double : (id : Text) → All IsPlain id → has_char b'"' (before_id ++ id ++ after_id) ≡ false
unfolding has_char
without_double id plain =
    has_char-append b'"' before_id (id ++ after_id) refl
      (has_char-append b'"' id after_id (All-without b'"' id refl plain) refl)

split_double :
    (command : Text)
    → has_char b'"' command ≡ false
    → split b'"' (windows_shell ++ command ++ (b'"' ∷ []))
      ≡ codes "powershell.exe -NoLogo -NoExit -Command " ∷ command ∷ [] ∷ []
unfolding split has_char
split_double command h =
    split_part b'"' (codes "powershell.exe -NoLogo -NoExit -Command ") (command ++ (b'"' ∷ [])) refl
    ∙ ap (λ l. codes "powershell.exe -NoLogo -NoExit -Command " ∷ l) (split_part b'"' command [] h)

-- the platform's name contains a part, without regard to case
abbrev pub names_platform : Runtime → Text → Text → Bool
names_platform u platform part = has_part part (map_text u.casefold platform)

-- what the shell of a relay is given: on Windows the command is one part between double quotes, on
-- a Unix it is followed by the start of the shell
abbrev pub IsWrapped : Runtime → Text → Text → Text → Type 0
IsWrapped u platform command shell =
    (names_platform u platform (codes "windows") ≡ true)
      × (split b'"' shell ≡ codes "powershell.exe -NoLogo -NoExit -Command " ∷ command ∷ [] ∷ [])
    ⊎ (names_platform u platform (codes "windows") ≡ false)
      × (any (names_platform u platform) unix_names ≡ true)
      × (shell ≡ command ++ unix_shell)

wrapped :
    (u : Runtime) (platform command shell : Text)
    → has_char b'"' command ≡ false
    → wrap_command u platform command ≡ ok shell
    → IsWrapped u platform command shell
unfolding wrap_command
wrapped u platform command shell h e =
    elim (Bool-cases (has_part (codes "windows") (map_text u.casefold platform))) [
      | inl w ↦
          let same_shell : windows_shell ++ command ++ (b'"' ∷ []) ≡ shell = ground arith in
          inl (w, ap (split b'"') (sym same_shell) ∙ split_double command h)
      | inr w ↦
          elim (Bool-cases
            (any (λ name. has_part name (map_text u.casefold platform)) unix_names)) [
              | inl x ↦ inr (w, x, ground arith)
              | inr x ↦ absurd (ground arith)
            ]
    ]

-- A command that is built for a relay holds the id between its only two single quotes, so that the
-- id is one argument: no character of the id is a quote, `$`, a backtick, a backslash, `;`, a space
-- or a new line, none of which is a decimal digit. The shell that keeps the session open is given
-- that command as one part between its only two double quotes where the name of the platform
-- contains `windows`, without regard to case, and otherwise, where it contains the name of a Unix,
-- the command with the start of a shell behind it.
pub persistent_command_quotes :
    (u : Runtime) (id platform shell : Text)
    → ((c : ℕ) → is_decimal u c ≡ true → IsPlain c)
    → build_persistent_remote_secret_command u id platform ≡ ok shell
    → (command : Text) × (build_remote_secret_command u id ≡ ok command)
      × All IsPlain id
      × (split 39 command ≡ quoted_parts id)
      × IsWrapped u platform command shell
unfolding build_persistent_remote_secret_command build_remote_secret_command
persistent_command_quotes u id platform shell digits_plain h =
    let (command, built, rest) =
      then_do-eq-ok (build_remote_secret_command u id) (wrap_command u platform) h in
    let (nothing_left, valid, same_command) =
      then_do-eq-ok (validate_remote_secret_id u id) (λ _. ok (before_id ++ id ++ after_id))
        built in
    let plain = valid_id-IsPlain u digits_plain id valid in
    let same_text : before_id ++ id ++ after_id ≡ command = ground arith in
    (
      command,
      built,
      plain,
      ap (split 39) (sym same_text) ∙ split_quoted id plain,
      wrapped u platform command shell
          (ap (has_char b'"') (sym same_text) ∙ without_double id plain) rest,
    )
