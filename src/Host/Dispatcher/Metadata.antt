-- ===== src/Host/Dispatcher/Metadata.antt =====
-- framework/src/host/InboundDispatcher.cc: the check of the metadata of an inbound call. Custom
-- fields come from `route.*` alone, system fields from the listed `fw.*` keys alone.
use Prim.Native.String.{len, slice}
use text.Mathlib.Text.{starts_with}
use mathlib.Core.List.{append-nil, append_assoc}
use bbt_framework.Prelude.{
  ℕ, ◌≤◌, ◌<◌, ◌≡◌, ◌∙◌, refl, ap, Bool-cases, Bool, true, false, ◌&&◌, ◌||◌, not, List, [], ◌∷◌,
  ◌++◌, Option, none, some, String, is_empty, ◌++ₛ◌, if◌then◌else◌, arith, All, length,
  length-append, All-append, Option-cases, inl, inr, leb, ltb, u64_max,
}
use bbt_framework.Infra.{Infra, Error, make_error, Result, Result-cases, ok, err, invalid_argument}
use bbt_framework.Ordered.Types.{◌==ₛ◌}
use bbt_framework.Ordered.ErrorDomain.{is_unsigned_decimal}
use bbt_framework.Host.Dispatcher.Decimal.{parse_unsigned_decimal, parse_unsigned_decimal_iff}

abbrev pub max_route_field_count : ℕ
max_route_field_count = 16

abbrev pub max_route_key_bytes : ℕ
max_route_key_bytes = 64

abbrev pub max_route_value_bytes : ℕ
max_route_value_bytes = 256

-- What the loop over the metadata has collected.
pub record MetadataFields : Type 0 where
  pub custom : List (String × String)
  pub trace_id : Option String
  pub producer_id : String
  pub producer_epoch : String
  pub receiver_epoch : String
  pub sequence : ℕ
  pub has_sequence : Bool

abbrev pub no_fields : MetadataFields
no_fields = record {
  custom = [];
  trace_id = none;
  producer_id = "";
  producer_epoch = "";
  receiver_epoch = "";
  sequence = 0;
  has_sequence = false;
}

abbrev pub is_route_key : String → Bool
is_route_key k = starts_with k "route."

-- `k.substr(kRoutePrefix.size())`
abbrev pub route_name : String → String
route_name k = slice k 6 (len k)

unfoldable pub is_ordered_fw_key : String → Bool
is_ordered_fw_key k =
    k ==ₛ "fw.producer_id"
    || (k ==ₛ "fw.producer_epoch" || (k ==ₛ "fw.sequence" || k ==ₛ "fw.receiver_epoch"))

module _ ⦃infra : Infra⦄ where
  abbrev pub err_invalid : String → Error
  err_invalid what = make_error invalid_argument what

  unfoldable pub read_route : String → String → MetadataFields → Result MetadataFields
  read_route name v fields =
      if is_empty name || (ltb max_route_key_bytes (len name) || ltb max_route_value_bytes (len v))
      then err (err_invalid "route.* field out of bounds")
      else if leb max_route_field_count (length fields.custom)
      then err (err_invalid "too many route.* fields")
      else ok (record fields { custom = fields.custom ++ (name, v) ∷ [] })

  unfoldable pub read_sequence : String → MetadataFields → Result MetadataFields
  read_sequence v fields =
      if not (is_unsigned_decimal v)
      then err (err_invalid "fw.sequence must be unsigned decimal")
      else elim (parse_unsigned_decimal v) [
        | none ↦ err (err_invalid "fw.sequence exceeds uint64 range")
        | some n ↦ ok (record fields { sequence = n; has_sequence = true })
      ]

  unfoldable pub read_ordered : String → String → MetadataFields → Result MetadataFields
  unfolding read_sequence
  read_ordered k v fields =
      if is_empty v
      then err (err_invalid ("malformed " ++ₛ k))
      else if k ==ₛ "fw.sequence"
      then read_sequence v fields
      else if k ==ₛ "fw.producer_id"
      then ok (record fields { producer_id = v })
      else if k ==ₛ "fw.producer_epoch"
      then ok (record fields { producer_epoch = v })
      else if k ==ₛ "fw.receiver_epoch"
      then ok (record fields { receiver_epoch = v })
      else ok fields

  -- One round of the loop.
  unfoldable pub read_field : String → String → MetadataFields → Result MetadataFields
  unfolding read_route read_ordered is_ordered_fw_key
  read_field k v fields =
      if is_route_key k
      then read_route (route_name k) v fields
      else if k ==ₛ "fw.trace_id"
      then ok (record fields { trace_id = some v })
      else if is_ordered_fw_key k
      then read_ordered k v fields
      else err (err_invalid ("metadata key outside route.*: " ++ₛ k))

  unfoldable pub read_metadata : List (String × String) → MetadataFields → Result MetadataFields
  unfolding read_field
  read_metadata [] fields = ok fields
  read_metadata ((k, v) ∷ rest) fields = elim (read_field k v fields) [
    | err e ↦ err e
    | ok next ↦ read_metadata rest next
  ]

-- The keys that are accepted.
abbrev pub is_listed_key : String → Bool
is_listed_key k = is_route_key k || (k ==ₛ "fw.trace_id" || is_ordered_fw_key k)

-- The custom fields that metadata carries, in order.
abbrev pub route_fields : List (String × String) → List (String × String)
route_fields [] = []
route_fields ((k, v) ∷ rest) =
    let more = route_fields rest in if is_route_key k then (route_name k, v) ∷ more else more

abbrev pub is_bounded : String × String → Bool
is_bounded (name, v) =
    not (is_empty name) && (leb (len name) max_route_key_bytes && leb (len v) max_route_value_bytes)

abbrev pub SequenceFits : Bool → ℕ → Type 0
SequenceFits true n = n ≤ u64_max
SequenceFits false n = n ≡ 0

-- What the collected fields have to meet: at most 16 custom fields, each within its bounds, and a
-- sequence of 64 bits, which is 0 where none was given.
abbrev pub IsSound : MetadataFields → Type 0
IsSound f =
    All (λ field. is_bounded field ≡ true) f.custom
    × (length f.custom ≤ max_route_field_count)
    × SequenceFits f.has_sequence f.sequence

module _ ⦃infra : Infra⦄ where
  -- What a round adds to the custom fields.
  abbrev custom_of : String → String → List (String × String)
  custom_of k v = if is_route_key k then (route_name k, v) ∷ [] else []

  read_route-IsSound :
      (name v : String) (f g : MetadataFields)
      → read_route name v f ≡ ok g
      → IsSound f
      → (g.custom ≡ f.custom ++ (name, v) ∷ []) × IsSound g
  unfolding read_route
  read_route-IsSound name v f g h sound =
      let bounds : is_bounded (name, v) ≡ true = ground arith in
      let room : length f.custom < max_route_field_count = ground arith in
      let same : g ≡ record f { custom = f.custom ++ (name, v) ∷ [] } = ground arith in
      rw same (
        refl,
        (
          All-append (λ field. is_bounded field ≡ true) f.custom ((name, v) ∷ []) sound.0
              (bounds, tt),
          omega (arith, length-append f.custom ((name, v) ∷ []), room),
          sound.2,
        ),
      )

  read_ordered-IsSound :
      (k v : String) (f g : MetadataFields)
      → read_ordered k v f ≡ ok g
      → IsSound f
      → (g.custom ≡ f.custom) × IsSound g
  unfolding read_ordered read_sequence
  read_ordered-IsSound k v f g h sound = elim (Option-cases (parse_unsigned_decimal v)) [
    | inl e ↦ ground arith
    | inr (n, e) ↦ ground (arith, (parse_unsigned_decimal_iff v n).0 e)
  ]

  read_field-IsSound :
      (k v : String) (f g : MetadataFields)
      → read_field k v f ≡ ok g
      → IsSound f
      → (is_listed_key k ≡ true) × (g.custom ≡ f.custom ++ custom_of k v) × IsSound g
  unfolding read_field
  read_field-IsSound k v f g h sound = ground (
    arith,
    read_route-IsSound (route_name k) v f g,
    read_ordered-IsSound k v f g,
    append-nil f.custom,
  )

  together :
      (k v : String) (f : MetadataFields) (rest : List (String × String))
      → (f.custom ++ custom_of k v) ++ route_fields rest ≡ f.custom ++ route_fields ((k, v) ∷ rest)
  together k v f rest =
      append_assoc f.custom (custom_of k v) (route_fields rest)
      ∙ ap (λ c. f.custom ++ c)
          (elim (Bool-cases (is_route_key k)) [ inl e ↦ rw e refl | inr e ↦ rw e refl ])

  read_metadata_from :
      (md : List (String × String)) (f g : MetadataFields)
      → read_metadata md f ≡ ok g
      → IsSound f
      → All (λ entry. is_listed_key entry.0 ≡ true) md
        × (g.custom ≡ f.custom ++ route_fields md)
        × IsSound g
  unfolding read_metadata
  read_metadata_from [] f g h sound = ground (arith, append-nil f.custom)
  read_metadata_from ((k, v) ∷ rest) f g h sound = elim (Result-cases (read_field k v f)) [
    | inl (e, bad) ↦ ground arith
    | inr (next, good) ↦
        let (now, added, kept) = read_field-IsSound k v f next good sound in
        let (later, all, final) = read_metadata_from rest next g (ground arith) kept in
        ((now, later), all ∙ ap (λ c. c ++ route_fields rest) added ∙ together k v f rest, final)
  ]

  -- Metadata is accepted only if each key is a `route.*` key or one of the five listed `fw.*` keys.
  -- The custom fields are then those of the `route.*` entries, in order, at most 16 of them with names
  -- of 1 to 64 bytes and values of at most 256; and the sequence fits into 64 bits.
  pub read_metadata-IsSound :
      (md : List (String × String)) (f : MetadataFields)
      → read_metadata md no_fields ≡ ok f
      → All (λ entry. is_listed_key entry.0 ≡ true) md × (f.custom ≡ route_fields md) × IsSound f
  read_metadata-IsSound md f h = read_metadata_from md no_fields f h (tt, omega arith, refl)
