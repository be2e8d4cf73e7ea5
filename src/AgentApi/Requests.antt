-- ===== src/AgentApi/Requests.antt =====
-- crates/pithos-agent-api/src/lib.rs: the limits of the protocol and the walk through a JSON value that
-- applies them.
pub mod Envelope
pub mod Measured
use pithos.Prelude.{ℕ, suc, ◌+◌, ◌*◌, Option, none, some, List, length, ltb}
use pithos.AgentApi.{
  Value, null, boolean, number, string, array, object, Values, no_values, and_value, Fields,
  no_fields, and_field, RpcResult, ok, ◌>>◌, bail_if, resource_limit_error,
}

pub record ProtocolLimits : Type 0 where
  pub max_request_bytes : ℕ
  pub max_depth : ℕ
  pub max_method_bytes : ℕ
  pub max_id_bytes : ℕ
  pub max_string_bytes : ℕ
  pub max_array_items : ℕ
  pub max_object_fields : ℕ

abbrev pub default_protocol_limits : ProtocolLimits
default_protocol_limits = record {
  max_request_bytes = 1024 * 1024;
  max_depth = 64;
  max_method_bytes = 128;
  max_id_bytes = 128;
  max_string_bytes = 32 * 1024;
  max_array_items = 4096;
  max_object_fields = 256;
}

-- `values.len()`
unfoldable pub count_values : Values → ℕ
count_values no_values = 0
count_values (and_value value rest) = suc (count_values rest)

unfoldable pub count_fields : Fields → ℕ
count_fields no_fields = 0
count_fields (and_field key value rest) = suc (count_fields rest)

unfoldable mutual
  pub validate_json_value : Value → ProtocolLimits → ℕ → RpcResult (Unit {0})
  validate_json_value (string text) limits depth =
      bail_if (ltb limits.max_depth depth) (resource_limit_error "JSON depth exceeded")
      >> bail_if (ltb limits.max_string_bytes (length text))
          (resource_limit_error "string too large")
  validate_json_value (array values) limits depth =
      bail_if (ltb limits.max_depth depth) (resource_limit_error "JSON depth exceeded")
      >> bail_if (ltb limits.max_array_items (count_values values))
          (resource_limit_error "array too large")
      >> validate_values values limits (depth + 1)
  validate_json_value (object fields) limits depth =
      bail_if (ltb limits.max_depth depth) (resource_limit_error "JSON depth exceeded")
      >> bail_if (ltb limits.max_object_fields (count_fields fields))
          (resource_limit_error "object too large")
      >> validate_fields fields limits (depth + 1)
  validate_json_value null limits depth =
      bail_if (ltb limits.max_depth depth) (resource_limit_error "JSON depth exceeded")
  validate_json_value (boolean b) limits depth =
      bail_if (ltb limits.max_depth depth) (resource_limit_error "JSON depth exceeded")
  validate_json_value (number digits) limits depth =
      bail_if (ltb limits.max_depth depth) (resource_limit_error "JSON depth exceeded")

  pub validate_values : Values → ProtocolLimits → ℕ → RpcResult (Unit {0})
  validate_values no_values limits depth = ok tt
  validate_values (and_value value rest) limits depth =
      validate_json_value value limits depth >> validate_values rest limits depth

  pub validate_fields : Fields → ProtocolLimits → ℕ → RpcResult (Unit {0})
  validate_fields no_fields limits depth = ok tt
  validate_fields (and_field key value rest) limits depth =
      bail_if (ltb limits.max_string_bytes (length key))
        (resource_limit_error "object key too large")
      >> validate_json_value value limits depth
      >> validate_fields rest limits depth
