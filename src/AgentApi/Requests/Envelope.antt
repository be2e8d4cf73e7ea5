-- ===== src/AgentApi/Requests/Envelope.antt =====
-- crates/pithos-agent-api/src/lib.rs: `parse_request`. What serde_json makes of the bytes is a parameter.
use pithos.Prelude.{
  ℕ, ◌≡◌, ◌≤◌, ◌<◌, refl, ap, subst, not, ◌||◌, ◌&&◌, Bool, true, false, Option, some, List, [],
  ◌∷◌, length, ltb, ◌==◌, if◌then◌else◌, arith,
}
use pithos.Prelude.Int.{ℤ}
use pithos.Format.Same.{same_bytes, same_bytes→eq}
use pithos.AgentApi.{
  both-ok, Value, null, boolean, number, string, array, object, RpcResult, ok, err, ◌>>=◌, ◌>>◌,
  bail_if, ok_or, bind-inv, ok_or-some, ok-injective, JsonRpcError, parse_error, invalid_request,
  method_not_found, resource_limit_error,
}
use pithos.AgentApi.Methods.{RpcMethod, as_str, from_str, as_str-from_str}
use pithos.AgentApi.Requests.{ProtocolLimits, validate_json_value}
use pithos.AgentApi.Requests.Measured.{measure, Fits, ok-within, validate_json_value_iff}

pub data RpcId : Type 0 where
  number_id : ℤ → RpcId
  string_id : List ℕ → RpcId

pub record RawJsonRpcRequest : Type 0 where
  pub method : RpcMethod
  pub params : Value
  pub id : RpcId

pub record WireRequest : Type 0 where
  pub jsonrpc : List ℕ
  pub method : List ℕ
  pub params : Value
  pub id : Value

-- `serde_json::from_slice::<WireRequest>`, with the errors as `classify` parts them.
pub data Envelope : Type 0 where
  not_json : Envelope
  other_shape : Envelope
  envelope : WireRequest → Envelope

-- The crate serde_json: the two readings of the bytes, and `Number::as_i64`.
pub record SerdeJson : Type 0 where
  pub read_envelope : List ℕ → Envelope
  pub read_value : List ℕ → Option Value
  pub as_i64 : List ℕ → Option ℤ

unfoldable pub wire_request : Envelope → RpcResult WireRequest
wire_request not_json = err parse_error
wire_request other_shape = err (invalid_request "invalid envelope")
wire_request (envelope wire) = ok wire

-- "2.0"
abbrev pub json_rpc_version : List ℕ
json_rpc_version = 50 ∷ 46 ∷ 48 ∷ []

unfoldable pub request_id : SerdeJson → ProtocolLimits → Value → RpcResult RpcId
request_id json limits (number digits) =
    ok_or (json.as_i64 digits) (invalid_request "id must be an integer") >>= λ n. ok (number_id n)
request_id json limits (string text) =
    if not (length text == 0) && not (ltb limits.max_id_bytes (length text))
    then ok (string_id text)
    else err (invalid_request "invalid id")
request_id json limits _ = err (invalid_request "invalid id")

-- `parse_request` behind the readings.
unfoldable pub request_of :
    SerdeJson → ProtocolLimits → WireRequest → Value → RpcResult RawJsonRpcRequest
request_of json limits wire value =
    validate_json_value value limits 0
    >> bail_if (not (same_bytes wire.jsonrpc json_rpc_version))
        (invalid_request "jsonrpc must be 2.0")
    >> bail_if (length wire.method == 0 || ltb limits.max_method_bytes (length wire.method))
        (invalid_request "invalid method")
    >> (ok_or (from_str wire.method) method_not_found >>= λ method.
        request_id json limits wire.id >>= λ id.
        ok (record { method = method; params = wire.params; id = id }))

unfoldable pub parse_request : SerdeJson → List ℕ → ProtocolLimits → RpcResult RawJsonRpcRequest
parse_request json bytes limits =
    bail_if (ltb limits.max_request_bytes (length bytes)) (resource_limit_error "request too large")
    >> (wire_request (json.read_envelope bytes) >>= λ wire.
        ok_or (json.read_value bytes) parse_error >>= λ value. request_of json limits wire value)

-- An id is the integer or the short string that the request holds.
abbrev pub IsIdOf : SerdeJson → ProtocolLimits → Value → RpcId → Type 0
IsIdOf json limits value (number_id n) =
    (digits : List ℕ) × (value ≡ number digits) × (json.as_i64 digits ≡ some n)
IsIdOf json limits value (string_id text) =
    (value ≡ string text) × (0 < length text) × (length text ≤ limits.max_id_bytes)

pub record IsRequest (json : SerdeJson) (limits : ProtocolLimits) (bytes : List ℕ)
    (request : RawJsonRpcRequest) : Type 0 where
  pub wire : WireRequest
  pub value : Value
  pub short : length bytes ≤ limits.max_request_bytes
  pub enveloped : json.read_envelope bytes ≡ envelope wire
  pub valued : json.read_value bytes ≡ some value
  pub fits : Fits (measure value) limits 0
  pub version : wire.jsonrpc ≡ json_rpc_version
  pub named : as_str request.method ≡ wire.method
  pub name_short : length wire.method ≤ limits.max_method_bytes
  pub params : request.params ≡ wire.params
  pub identified : IsIdOf json limits wire.id request.id

short_text :
    (text : List ℕ) (size limit : ℕ) (e : JsonRpcError) {id : RpcId}
    → (if not (size == 0) && not (ltb limit size) then ok (string_id text) else err e) ≡ ok id
    → ((0 < size) × (size ≤ limit)) × (string_id text ≡ id)
short_text text size limit e q = ground arith

request_id-IsIdOf :
    (json : SerdeJson) (limits : ProtocolLimits) (value : Value) {id : RpcId}
    → request_id json limits value ≡ ok id
    → IsIdOf json limits value id
unfolding request_id
request_id-IsIdOf json limits (number digits) q =
    let (n, h, k) =
      bind-inv (ok_or (json.as_i64 digits) (invalid_request "id must be an integer")) _ q in
    subst (IsIdOf json limits (number digits)) (ok-injective k)
      (digits, refl, ok_or-some (json.as_i64 digits) _ h)
request_id-IsIdOf json limits (string text) {id} q =
    let (whole, i) = short_text text (length text) limits.max_id_bytes _ q in
    subst (IsIdOf json limits (string text)) i (refl, whole.0, whole.1)
request_id-IsIdOf json limits null q = cc
request_id-IsIdOf json limits (boolean b) q = cc
request_id-IsIdOf json limits (array vs) q = cc
request_id-IsIdOf json limits (object vs) q = cc

wire_request-ok : (e : Envelope) {wire : WireRequest} → wire_request e ≡ ok wire → e ≡ envelope wire
unfolding wire_request
wire_request-ok not_json q = cc
wire_request-ok other_shape q = cc
wire_request-ok (envelope wire) q = ap envelope (ok-injective q)

-- What holds behind the readings.
abbrev IsRequestOf : SerdeJson → ProtocolLimits → WireRequest → Value → RawJsonRpcRequest → Type 0
IsRequestOf json limits wire value request =
    Fits (measure value) limits 0
    × (wire.jsonrpc ≡ json_rpc_version)
    × (as_str request.method ≡ wire.method)
    × (length wire.method ≤ limits.max_method_bytes)
    × (request.params ≡ wire.params)
    × IsIdOf json limits wire.id request.id

same_version :
    (test : Bool) (e : JsonRpcError) {u : Unit {0}} → bail_if (not test) e ≡ ok u → test ≡ true
same_version true e q = refl
same_version false e q = cc

named_shortly :
    (size limit : ℕ) (e : JsonRpcError) {u : Unit {0}}
    → bail_if (size == 0 || ltb limit size) e ≡ ok u
    → size ≤ limit
named_shortly size limit e q = ground arith

request_of-IsRequestOf :
    (json : SerdeJson) (limits : ProtocolLimits) (wire : WireRequest) (value : Value)
    {request : RawJsonRpcRequest}
    → request_of json limits wire value ≡ ok request
    → IsRequestOf json limits wire value request
unfolding request_of
request_of-IsRequestOf json limits wire value q =
    let (tt, checks, q3) =
      bind-inv
        (validate_json_value value limits 0
          >> bail_if (not (same_bytes wire.jsonrpc json_rpc_version))
              (invalid_request "jsonrpc must be 2.0")
          >> bail_if (length wire.method == 0 || ltb limits.max_method_bytes (length wire.method))
              (invalid_request "invalid method"))
        _ q in
    let (checks2, name_fits) = both-ok _ _ checks in
    let (fits, version) = both-ok _ _ checks2 in
    let (method, m, q4) = bind-inv (ok_or (from_str wire.method) method_not_found) _ q3 in
    let (id, i, q5) = bind-inv (request_id json limits wire.id) _ q4 in
    let here : IsRequestOf json limits wire value
        (record { method = method; params = wire.params; id = id }) =
      (
        (validate_json_value_iff value limits 0).0 fits,
        same_bytes→eq wire.jsonrpc json_rpc_version (same_version _ _ version),
        as_str-from_str wire.method (ok_or-some (from_str wire.method) _ m),
        named_shortly (length wire.method) limits.max_method_bytes _ name_fits,
        refl,
        request_id-IsIdOf json limits wire.id i,
      ) in
    subst (IsRequestOf json limits wire value) (ok-injective q5) here

-- An accepted request is within the limits, its value and its envelope were read, the version is
-- 2.0, the method is the one whose name stands there, the parameters are passed on, and the id is
-- the integer or the short string that stands there.
pub parse_request-IsRequest :
    (json : SerdeJson) (bytes : List ℕ) (limits : ProtocolLimits) {request : RawJsonRpcRequest}
    → parse_request json bytes limits ≡ ok request
    → IsRequest json limits bytes request
unfolding parse_request
parse_request-IsRequest json bytes limits q =
    let (u, short, q0) =
      bind-inv
        (bail_if (ltb limits.max_request_bytes (length bytes))
          (resource_limit_error "request too large"))
        _ q in
    let (wire, w, q1) = bind-inv (wire_request (json.read_envelope bytes)) _ q0 in
    let (value, v, q2) = bind-inv (ok_or (json.read_value bytes) parse_error) _ q1 in
    let (fits, version, named, name_short, params, id) =
      request_of-IsRequestOf json limits wire value q2 in
    record {
      wire = wire;
      value = value;
      short = ok-within limits.max_request_bytes (length bytes) _ short;
      enveloped = wire_request-ok (json.read_envelope bytes) w;
      valued = ok_or-some (json.read_value bytes) _ v;
      fits = fits;
      version = version;
      named = named;
      name_short = name_short;
      params = params;
      identified = id;
    }
