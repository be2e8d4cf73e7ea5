-- ===== src/Examples/Requests.antt =====
-- The requests of the daemon at concrete inputs.
use pithos.Prelude.{◌≡◌, ◌↔◌, refl, some, [], ◌∷◌}
use pithos.Prelude.Int.{pos}
use pithos.Format.Same.{same_bytes}
use pithos.AgentApi.{
  Value, null, number, string, array, object, and_value, no_values, and_field, no_fields, ok,
}
use pithos.AgentApi.Methods.{verify, as_str, find_method, from_str}
use pithos.AgentApi.Requests.{
  ProtocolLimits, default_protocol_limits, count_values, count_fields, validate_json_value,
}
use pithos.AgentApi.Requests.Measured.{measure, Fits, validate_json_value_iff}
use pithos.AgentApi.Requests.Envelope.{
  number_id, RawJsonRpcRequest, WireRequest, envelope, SerdeJson, wire_request, request_id,
  request_of, parse_request, IsRequest, parse_request-IsRequest,
}

-- {"a": ["b", null]}
abbrev nested : Value
nested = object (
    and_field (97 ∷ []) (array (and_value (string (98 ∷ [])) (and_value null no_values))) no_fields)

abbrev small_limits : ProtocolLimits
small_limits = record default_protocol_limits { max_depth = 2; max_array_items = 2 }

validate_json_value_iff_example :
    (validate_json_value nested small_limits 0 ≡ ok tt) ↔ Fits (measure nested) small_limits 0
validate_json_value_iff_example = validate_json_value_iff nested small_limits 0

abbrev wire : WireRequest
wire = record {
  jsonrpc = 50 ∷ 46 ∷ 48 ∷ [];
  method = 118 ∷ 101 ∷ 114 ∷ 105 ∷ 102 ∷ 121 ∷ [];
  params = nested;
  id = number (55 ∷ []);
}

abbrev json : SerdeJson
json = record {
  read_envelope = λ bytes. envelope wire;
  read_value = λ bytes. some nested;
  as_i64 = λ digits. some (pos 7);
}

abbrev request : RawJsonRpcRequest
request = record { method = verify; params = nested; id = number_id (pos 7) }

parsed : parse_request json (1 ∷ 2 ∷ []) small_limits ≡ ok request
unfolding parse_request wire_request request_of request_id from_str find_method as_str same_bytes
    validate_json_value count_values count_fields
parsed = refl

parse_request-IsRequest_example : IsRequest json small_limits (1 ∷ 2 ∷ []) request
parse_request-IsRequest_example = parse_request-IsRequest json (1 ∷ 2 ∷ []) small_limits parsed
