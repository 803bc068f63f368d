-- ===== src/JsonPatch/Lookup.antt =====
-- What a merged object of crates/maple_lsp/src/json_patch.rs holds under each key.
use vim_clap.Common.{
  if◌then◌else◌, ◌≡◌, refl, sym, ap, ◌∙◌, true, false, Option, none, some, arith, Bool-cases, inl,
  inr,
}
use vim_clap.Text.{Text, text_eq}
use vim_clap.Text.Affixes.{text_eq-eq}
use vim_clap.JsonPatch.{
  value_or_null, Value, null, Fields, no_fields, field, is_null, get_field, remove_field,
  write_field, entry_value, merge, merge_fields,
}

-- No key stands twice.
abbrev pub IsObject : Fields → Type 0
IsObject no_fields = Unit
IsObject (field k v fs) = (get_field k fs ≡ none) × IsObject fs

-- What a field of the patch makes of a value, which may be missing.
abbrev pub patched : Option Value → Option Value → Option Value
patched old none = old
patched none (some v) = if is_null v then none else some (merge null v)
patched (some o) (some v) = if is_null v then none else some (merge o v)

-- Equal keys compare alike with every other.
same_key : (k k' j : Text) → text_eq k k' ≡ true → text_eq k j ≡ text_eq k' j
same_key k k' j h = ap (λ x. text_eq x j) (text_eq-eq k k' h)

same_other : (k k' j : Text) → text_eq k' j ≡ true → text_eq k j ≡ text_eq k k'
same_other k k' j h = ap (text_eq k) (sym (text_eq-eq k' j h))

get_field-remove_field :
    (k k' : Text) (fs : Fields)
    → get_field k (remove_field k' fs) ≡ (if text_eq k k' then none else get_field k fs)
unfolding get_field remove_field
get_field-remove_field k k' no_fields = ground arith
get_field-remove_field k k' (field j v fs) =
    ground (arith, get_field-remove_field k k' fs, same_key k k' j, same_other k k' j)

get_field-write_field :
    (k k' : Text) (v : Value) (fs : Fields)
    → get_field k (write_field k' v fs) ≡ (if text_eq k k' then some v else get_field k fs)
unfolding get_field write_field
get_field-write_field k k' v no_fields = refl
get_field-write_field k k' v (field j w fs) =
    ground (arith, get_field-write_field k k' v fs, same_key k k' j, same_other k k' j)

-- The value under the key of a field of the patch.
patched-entry :
    (a : Fields) (k : Text) (v : Value)
    → is_null v ≡ false
    → some (merge (entry_value k a) v) ≡ patched (get_field k a) (some v)
unfolding entry_value
patched-entry a k v h = by_value (get_field k a)
  where
    by_value : (o : Option Value) → some (merge (value_or_null o) v) ≡ patched o (some v)
    by_value none = rw h refl
    by_value (some o) = rw h refl

patched-null : (o : Option Value) (v : Value) → is_null v ≡ true → patched o (some v) ≡ none
patched-null none v h = rw h refl
patched-null (some o) v h = rw h refl

-- Merging two objects, the patch without a key that stands twice, gives under each key: the old value
-- where the patch has none, nothing where the patch has null, and else the old value, or null
-- where there is none, merged with the patch's.
pub merge_fields-lookup :
    (k : Text) (a b : Fields)
    → IsObject b
    → get_field k (merge_fields a b) ≡ patched (get_field k a) (get_field k b)
unfolding merge_fields get_field
merge_fields-lookup k a no_fields h = refl
merge_fields-lookup k a (field k' v b) (fresh, h) = elim (Bool-cases (is_null v)) [
  | inl n ↦ rw n (
      merge_fields-lookup k (remove_field k' a) b h
      ∙ ap (λ o. patched o (get_field k b)) (get_field-remove_field k k' a)
      ∙ by_key none (λ q. sym (patched-null (get_field k a) v n)))
  | inr n ↦ rw n (
      merge_fields-lookup k (write_field k' (merge (entry_value k' a) v) a) b h
      ∙ ap (λ o. patched o (get_field k b))
          (get_field-write_field k k' (merge (entry_value k' a) v) a)
      ∙ by_key (some (merge (entry_value k' a) v)) (λ q.
        patched-entry a k' v n
        ∙ ap (λ j. patched (get_field j a) (some v)) (sym (text_eq-eq k k' q))))
]
  where
    by_key :
        (new : Option Value)
        → (text_eq k k' ≡ true → new ≡ patched (get_field k a) (some v))
        → patched (if text_eq k k' then new else get_field k a) (get_field k b)
          ≡ patched (get_field k a) (if text_eq k k' then some v else get_field k b)
    by_key new e = elim (Bool-cases (text_eq k k')) [
      | inl q ↦ rw q (ap (patched new) (ap (λ j. get_field j b) (text_eq-eq k k' q) ∙ fresh) ∙ e q)
      | inr q ↦ rw q refl
    ]
