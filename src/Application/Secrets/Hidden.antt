-- ===== src/Application/Secrets/Hidden.antt =====
-- Documents that the masked document of a secret does not tell apart.
use aws_ssm_kit.Base.{
  ◌≡◌, refl, sym, ap, ◌∙◌, Bool, true, false, not, ◌||◌, Option, none, some, List, if◌then◌else◌,
  ◌⊎◌, inl, inr,
}
use aws_ssm_kit.Text.{Text, Runtime}
use aws_ssm_kit.Domain.SensitiveData.{is_sensitive_name}
use aws_ssm_kit.Application.Secrets.{
  Json, Members, Items, Scalar, scalar, object, array, no_members, member, no_items, item,
  redacted_value, masked_document, masked_members, masked_items, is_container, JsonPorts, parse,
  parsed, json_text, projected, SecretKind,
}

module _ (u : Runtime) where
  unfoldable mutual
    -- Two documents have the same names in the same places, and the same values where no name on the
    -- way is sensitive.
    pub Alike : Bool → Json → Json → Type 0
    Alike s (scalar a) (scalar b) = (s ≡ true) ⊎ (a ≡ b)
    Alike s (object ms) (object ns) = AlikeMembers s ms ns
    Alike s (array vs) (array ws) = AlikeItems s vs ws
    Alike s _ _ = ⊥

    pub AlikeMembers : Bool → Members → Members → Type 0
    AlikeMembers s no_members no_members = Unit
    AlikeMembers s (member a v ms) (member b w ns) =
        (a ≡ b) × Alike (s || is_sensitive_name u a) v w × AlikeMembers s ms ns
    AlikeMembers s _ _ = ⊥

    pub AlikeItems : Bool → Items → Items → Type 0
    AlikeItems s no_items no_items = Unit
    AlikeItems s (item v vs) (item w ws) = Alike s v w × AlikeItems s vs ws
    AlikeItems s _ _ = ⊥

  scalar_hidden :
      (s : Bool) (a b : Scalar)
      → (s ≡ true) ⊎ (a ≡ b)
      → ◌≡◌ {A = Json}
          (if s then redacted_value else scalar a)
          (if s then redacted_value else scalar b)
  scalar_hidden true a b h = refl
  scalar_hidden false a b (inl e) = absurd (cc)
  scalar_hidden false a b (inr e) = ap scalar e

  mutual
    unfolding masked_document Alike

    Alike-masked :
        (v w : Json) (s : Bool) → Alike s v w → masked_document u v s ≡ masked_document u w s
    Alike-masked (scalar a) (scalar b) s h = scalar_hidden s a b h
    Alike-masked (object ms) (object ns) s h = ap object (AlikeMembers-masked ms ns s h)
    Alike-masked (array vs) (array ws) s h = ap array (AlikeItems-masked vs ws s h)
    Alike-masked _ _ s h = absurd h

    AlikeMembers-masked :
        (ms ns : Members) (s : Bool)
        → AlikeMembers s ms ns
        → masked_members u ms s ≡ masked_members u ns s
    AlikeMembers-masked no_members no_members s h = refl
    AlikeMembers-masked (member a v ms) (member b w ns) s (e, hv, hms) =
        rw (← e, Alike-masked v w (s || is_sensitive_name u a) hv, AlikeMembers-masked ms ns s hms)
          refl
    AlikeMembers-masked _ _ s h = absurd h

    AlikeItems-masked :
        (vs ws : Items) (s : Bool) → AlikeItems s vs ws → masked_items u vs s ≡ masked_items u ws s
    AlikeItems-masked no_items no_items s h = refl
    AlikeItems-masked (item v vs) (item w ws) s (hv, hvs) =
        rw (Alike-masked v w s hv, AlikeItems-masked vs ws s hvs) refl
    AlikeItems-masked _ _ s h = absurd h

-- Two strings are alike if neither is JSON, or both are JSON with alike documents, where a document
-- that is a single value is sensitive as a whole.
abbrev pub AlikeStrings : Runtime → Option Json → Option Json → Type 0
AlikeStrings u none none = Unit
AlikeStrings u (some v) (some w) =
    (is_container v ≡ is_container w) × Alike u (not (is_container v)) v w
AlikeStrings u _ _ = ⊥

module _ (u : Runtime) (j : JsonPorts) where
  shown_text : Option Json → Option Text
  shown_text none = some (j.dumps redacted_value)
  shown_text (some v) = some (j.dumps (masked_document u v (not (is_container v))))

  json_text-parse :
      (id raw : Text) (version_id : Option Text) (stages : List Text)
      → json_text u j (parse u j id raw version_id stages) false ≡ shown_text (j.loads raw)
  unfolding json_text parse parsed shown_text projected
  json_text-parse id raw version_id stages = go (j.loads raw)
    where
      go :
          (o : Option Json)
          → (elim (parsed u j raw o).0 [
            | SecretKind.text ↦ some (j.dumps redacted_value)
            | SecretKind.json ↦ elim o [
              | none ↦ none
              | some v ↦ some (j.dumps (projected u j v false))
            ]
          ])
            ≡ shown_text o
      go none = refl
      go (some v) = refl

  AlikeStrings-shown : (o o' : Option Json) → AlikeStrings u o o' → shown_text o ≡ shown_text o'
  unfolding shown_text
  AlikeStrings-shown none none h = refl
  AlikeStrings-shown (some v) (some w) (same_kind, h) =
      rw (← same_kind, Alike-masked u v w (not (is_container v)) h) refl
  AlikeStrings-shown _ _ h = absurd h

  -- The text that is shown of a retrieved secret without a reveal is the same for two strings that are
  -- both no JSON, for two that are both a single value, and for two documents with the same names,
  -- the same nesting and lists of the same lengths, whose single values differ at most where a name
  -- on the way is sensitive.
  pub json_text_hides :
      (id raw raw' : Text) (version_id : Option Text) (stages : List Text)
      → AlikeStrings u (j.loads raw) (j.loads raw')
      → json_text u j (parse u j id raw version_id stages) false
        ≡ json_text u j (parse u j id raw' version_id stages) false
  json_text_hides id raw raw' version_id stages h =
      json_text-parse id raw version_id stages
      ∙ AlikeStrings-shown (j.loads raw) (j.loads raw') h
      ∙ sym (json_text-parse id raw' version_id stages)
