-- ===== src/Application/Secrets/Flattened.antt =====
-- The fields of a masked document beside the fields of the document.
use mathlib.Core.List.{map-append}
use aws_ssm_kit.Base.{
  ℕ, suc, ◌≡◌, refl, sym, Bool, true, false, ◌||◌, if◌then◌else◌, List, ◌++◌, map,
}
use aws_ssm_kit.Text.{Text, Runtime}
use aws_ssm_kit.Domain.SensitiveData.{is_sensitive_name}
use aws_ssm_kit.Application.Secrets.{
  Json, Members, Items, scalar, object, array, no_members, member, no_items, item, SecretField,
  masked_document, masked_members, masked_items, flatten, flatten_members, flatten_items,
  child_path, index_path, masked_value, is_container,
}

-- a field with its masked value, but for an empty object or list, which stays
pub shown : SecretField → SecretField
shown f = record {
  path = f.path;
  raw_value = if is_container f.raw_value then f.raw_value else masked_value f;
  sensitive = f.sensitive;
}

module _ (u : Runtime) where
  both :
      (xs ys : List SecretField) {xs' ys' : List SecretField}
      → xs' ≡ map shown xs
      → ys' ≡ map shown ys
      → xs' ++ ys' ≡ map shown (xs ++ ys)
  both xs ys h k = rw (h, k) (sym (map-append shown xs ys))

  mutual
    unfolding flatten masked_document shown masked_value

    masked_value_fields :
        (v : Json) (path : Text) (s : Bool)
        → flatten u (masked_document u v s) path s ≡ map shown (flatten u v path s)
    masked_value_fields (scalar a) path true = refl
    masked_value_fields (scalar a) path false = refl
    masked_value_fields (object no_members) path s = refl
    masked_value_fields (object (member name v ms)) path s =
        flatten_masked_members (member name v ms) path s
    masked_value_fields (array no_items) path s = refl
    masked_value_fields (array (item v vs)) path s = flatten_masked_items (item v vs) 0 path s

    flatten_masked_members :
        (ms : Members) (path : Text) (s : Bool)
        → flatten_members u (masked_members u ms s) path s ≡ map shown (flatten_members u ms path s)
    flatten_masked_members no_members path s = refl
    flatten_masked_members (member name v ms) path s =
        both _ _ (masked_value_fields v (child_path path name) (s || is_sensitive_name u name))
          (flatten_masked_members ms path s)

    flatten_masked_items :
        (vs : Items) (index : ℕ) (path : Text) (s : Bool)
        → flatten_items u (masked_items u vs s) index path s
          ≡ map shown (flatten_items u vs index path s)
    flatten_masked_items no_items index path s = refl
    flatten_masked_items (item v vs) index path s =
        both _ _ (masked_value_fields v (index_path path index) s)
          (flatten_masked_items vs (suc index) path s)

  -- Flattening a masked document gives the fields of the document, in the same order, with the same
  -- paths and marks. A value is the masked value of its field, but for an empty object or list: it
  -- stays in the masked document also where it is sensitive, while the masked value of its field is
  -- the redaction.
  pub flatten_masked :
      (v : Json) (path : Text) (s : Bool)
      → flatten u (masked_document u v s) path s ≡ map shown (flatten u v path s)
  flatten_masked = masked_value_fields
