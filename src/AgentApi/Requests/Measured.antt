-- ===== src/AgentApi/Requests/Measured.antt =====
-- The walk of `validate_json_value`, against measures of the whole value.
use pithos.Prelude.{ℕ, suc, ◌+◌, ◌≤◌, ◌≡◌, ◌↔◌, refl, max, length, ltb, arith}
use pithos.AgentApi.{
  both-ok, ok-both, Value, null, boolean, number, string, array, object, Values, no_values,
  and_value, Fields, no_fields, and_field, ok, bail_if, JsonRpcError,
}
use pithos.AgentApi.Requests.{
  ProtocolLimits, count_values, count_fields, validate_json_value, validate_values, validate_fields,
}

-- The levels below a value, its longest string, its largest array and its largest object. A key counts
-- as a string.
pub record Measures : Type 0 where
  height : ℕ
  longest : ℕ
  items : ℕ
  fields : ℕ

abbrev leaf : Measures
leaf = record { height = 0; longest = 0; items = 0; fields = 0 }

abbrev join : Measures → Measures → Measures
join a b = record {
  height = max a.height b.height;
  longest = max a.longest b.longest;
  items = max a.items b.items;
  fields = max a.fields b.fields;
}

unfoldable mutual
  pub measure : Value → Measures
  measure null = leaf
  measure (boolean b) = leaf
  measure (number digits) = leaf
  measure (string text) = record leaf { longest = length text }
  measure (array values) =
      let inner = measure_values values in
      record inner { height = inner.height; items = max (count_values values) inner.items }
  measure (object values) =
      let inner = measure_fields values in
      record inner { height = inner.height; fields = max (count_fields values) inner.fields }

  measure_values : Values → Measures
  measure_values no_values = leaf
  measure_values (and_value value rest) =
      let first = measure value in
      join (record first { height = suc first.height }) (measure_values rest)

  measure_fields : Fields → Measures
  measure_fields no_fields = leaf
  measure_fields (and_field key value rest) =
      let first = measure value in
      join (record first { height = suc first.height; longest = max (length key) first.longest })
        (measure_fields rest)

abbrev pub Fits : Measures → ProtocolLimits → ℕ → Type 0
Fits m limits depth =
    (depth + m.height ≤ limits.max_depth)
    × (m.longest ≤ limits.max_string_bytes)
    × (m.items ≤ limits.max_array_items)
    × (m.fields ≤ limits.max_object_fields)

-- A test of the walk passes exactly when the number is within the limit.
within-ok : (limit n : ℕ) (e : JsonRpcError) → n ≤ limit → bail_if (ltb limit n) e ≡ ok tt
within-ok limit n e h = ground arith

pub ok-within : (limit n : ℕ) (e : JsonRpcError) → bail_if (ltb limit n) e ≡ ok tt → n ≤ limit
ok-within limit n e h = ground arith

mutual
  unfolding validate_json_value measure

  accepted-Fits :
      (value : Value) (limits : ProtocolLimits) (depth : ℕ)
      → validate_json_value value limits depth ≡ ok tt
      → Fits (measure value) limits depth
  accepted-Fits null limits depth h = ground arith
  accepted-Fits (boolean b) limits depth h = ground arith
  accepted-Fits (number digits) limits depth h = ground arith
  accepted-Fits (string text) limits depth h =
      let (a, b) = both-ok _ _ h in
      let deep = ok-within limits.max_depth depth _ a in
      let long = ok-within limits.max_string_bytes (length text) _ b in omega arith
  accepted-Fits (array values) limits depth h =
      let (ab, c) = both-ok _ _ h in
      let (a, b) = both-ok _ _ ab in
      let wide = ok-within limits.max_array_items (count_values values) _ b in
      let inner = accepted_values values limits depth (ok-within limits.max_depth depth _ a) c in
      omega arith
  accepted-Fits (object values) limits depth h =
      let (ab, c) = both-ok _ _ h in
      let (a, b) = both-ok _ _ ab in
      let wide = ok-within limits.max_object_fields (count_fields values) _ b in
      let inner = accepted_fields values limits depth (ok-within limits.max_depth depth _ a) c in
      omega arith

  accepted_values :
      (values : Values) (limits : ProtocolLimits) (depth : ℕ)
      → depth ≤ limits.max_depth
      → validate_values values limits (depth + 1) ≡ ok tt
      → Fits (measure_values values) limits depth
  accepted_values no_values limits depth below h = omega arith
  accepted_values (and_value value rest) limits depth below h =
      let (a, b) = both-ok _ _ h in
      let first = accepted-Fits value limits (depth + 1) a in
      let others = accepted_values rest limits depth below b in omega arith

  accepted_fields :
      (values : Fields) (limits : ProtocolLimits) (depth : ℕ)
      → depth ≤ limits.max_depth
      → validate_fields values limits (depth + 1) ≡ ok tt
      → Fits (measure_fields values) limits depth
  accepted_fields no_fields limits depth below h = omega arith
  accepted_fields (and_field key value rest) limits depth below h =
      let (kv, b) = both-ok _ _ h in
      let (k, a) = both-ok _ _ kv in
      let short = ok-within limits.max_string_bytes (length key) _ k in
      let first = accepted-Fits value limits (depth + 1) a in
      let others = accepted_fields rest limits depth below b in omega arith

mutual
  unfolding validate_json_value measure

  Fits-accepted :
      (value : Value) (limits : ProtocolLimits) (depth : ℕ)
      → Fits (measure value) limits depth
      → validate_json_value value limits depth ≡ ok tt
  Fits-accepted null limits depth f = ground arith
  Fits-accepted (boolean b) limits depth f = ground arith
  Fits-accepted (number digits) limits depth f = ground arith
  Fits-accepted (string text) limits depth f = ground arith
  Fits-accepted (array values) limits depth f =
      ok-both _ _
        (ok-both _ _ (within-ok limits.max_depth depth _ (omega arith))
          (within-ok limits.max_array_items (count_values values) _ (omega arith)))
        (Fits-values values limits depth (omega arith))
  Fits-accepted (object values) limits depth f =
      ok-both _ _
        (ok-both _ _ (within-ok limits.max_depth depth _ (omega arith))
          (within-ok limits.max_object_fields (count_fields values) _ (omega arith)))
        (Fits-fields values limits depth (omega arith))

  Fits-values :
      (values : Values) (limits : ProtocolLimits) (depth : ℕ)
      → Fits (measure_values values) limits depth
      → validate_values values limits (depth + 1) ≡ ok tt
  Fits-values no_values limits depth f = refl
  Fits-values (and_value value rest) limits depth f =
      ok-both _ _ (Fits-accepted value limits (depth + 1) (omega arith))
        (Fits-values rest limits depth (omega arith))

  Fits-fields :
      (values : Fields) (limits : ProtocolLimits) (depth : ℕ)
      → Fits (measure_fields values) limits depth
      → validate_fields values limits (depth + 1) ≡ ok tt
  Fits-fields no_fields limits depth f = refl
  Fits-fields (and_field key value rest) limits depth f =
      ok-both _ _
        (ok-both _ _ (within-ok limits.max_string_bytes (length key) _ (omega arith))
          (Fits-accepted value limits (depth + 1) (omega arith)))
        (Fits-fields rest limits depth (omega arith))

-- A JSON value is accepted at a depth exactly when the depth and the levels below the value are
-- within the limit, and so are its longest string or key, its largest array and its largest object.
pub validate_json_value_iff :
    (value : Value) (limits : ProtocolLimits) (depth : ℕ)
    → (validate_json_value value limits depth ≡ ok tt) ↔ Fits (measure value) limits depth
validate_json_value_iff value limits depth =
    (accepted-Fits value limits depth, Fits-accepted value limits depth)
