-- ===== src/Domain/SavedSecret/Validity.antt =====
-- What the constructor of a saved lookup accepts, and its normal form.
use aws_ssm_kit.Base.{
  ◌≤◌, ◌≡◌, refl, false, Option, none, some, inl, inr, arith, length, Option-cases,
}
use aws_ssm_kit.Errors.{ok}
use aws_ssm_kit.Text.{Text, Runtime, is_empty, trim, has_char}
use aws_ssm_kit.Text.Strip.{strip_idem}
use aws_ssm_kit.Domain.SavedSecret.{SavedSecret, SecretLookupMode, saved_secret, relay_form}

-- A direct lookup has no relay, and an EC2 lookup a stripped one that is not blank.
abbrev pub Relayed : Runtime → SecretLookupMode → Option Text → Type 0
Relayed u SecretLookupMode.direct relay = relay ≡ none
Relayed u SecretLookupMode.via_ec2 none = ⊥
Relayed u SecretLookupMode.via_ec2 (some id) = (trim u id ≡ id) × (is_empty id ≡ false)

-- The invariant of a saved lookup.
pub record IsValid (u : Runtime) (s : SavedSecret) : Type 0 where
  pub identifier_trimmed : trim u s.identifier ≡ s.identifier
  pub identified : is_empty s.identifier ≡ false
  pub identifier_short : length s.identifier ≤ 2048
  pub identifier_plain : has_char 0 s.identifier ≡ false
  pub owned : 1 ≤ s.profile_id
  pub relayed : Relayed u s.lookup_mode s.relay_instance_id

relay_form_idem :
    (u : Runtime) (relay : Option Text) → relay_form u (relay_form u relay) ≡ relay_form u relay
unfolding relay_form
relay_form_idem u none = refl
relay_form_idem u (some id) = ground (arith, strip_idem u.is_space id)

relay_form-some :
    (u : Runtime) (relay : Option Text) (id : Text)
    → relay_form u relay ≡ some id
    → (trim u id ≡ id) × (is_empty id ≡ false)
unfolding relay_form
relay_form-some u none id h = cc
relay_form-some u (some r) id h = ground (arith, strip_idem u.is_space r)

-- A lookup that the constructor returns is valid, keeps the id, the owner, the mode and the value,
-- and is returned unchanged when it is constructed again.
pub saved_secret-IsValid :
    (u : Runtime) (s : SavedSecret) {q : SavedSecret}
    → saved_secret u s ≡ ok q
    → IsValid u q
      × (q ≡ record s {
        identifier = trim u s.identifier;
        relay_instance_id = relay_form u s.relay_instance_id;
      })
      × (saved_secret u q ≡ ok q)
unfolding saved_secret
saved_secret-IsValid u s {q} h = elim (Option-cases (relay_form u s.relay_instance_id)) [
  | inl e ↦
      ground (arith, strip_idem u.is_space s.identifier, relay_form_idem u s.relay_instance_id)
  | inr (id, e) ↦ ground (
    arith,
    strip_idem u.is_space s.identifier,
    relay_form_idem u s.relay_instance_id,
    relay_form-some u s.relay_instance_id id,
  )
]
