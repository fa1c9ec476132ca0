-- ===== src/Probes/Fetch.antt =====
-- crates/spark-probes/src/lib.rs: what is asked of an endpoint and what becomes of the answer. The HTTP
-- client and the types of its headers are parameters.
use Prim.Native.String.{◌++◌}
use spark_signals.Prelude.{
  String, Bool, true, false, Option, [], Result, ok, err, ok_or, ◌>>=◌, if◌then◌else◌,
}
use spark_signals.Order.{◌==◌, nat_ord}
use spark_signals.BTreeMap.{BTreeMap}
use spark_signals.Float.{F64}
use spark_signals.Text.{trim_end_matches}
use spark_signals.Text.Split.{split_once, trim}
use spark_signals.Probes.Config.{Backend, LlmEndpointConfig}
use spark_signals.Probes.Parse.{parse_prometheus}

-- what the client makes of a request: whether the status is a success, and the body if it can be read
pub data Response : Type 0 where
  unreachable : Response
  answered : (success : Bool) (body : Option String) → Response

abbrev pub is_openai : Backend → Bool
is_openai Backend.openai = true
is_openai Backend.sglang = false
is_openai Backend.vllm = false
is_openai Backend.llama_cpp = false
is_openai Backend.custom = false

-- the URL of `fetch_endpoint`
unfoldable pub endpoint_url : LlmEndpointConfig → String
unfolding trim_end_matches
endpoint_url config =
    trim_end_matches b'/' config.base_url
    ++ (if is_openai config.backend then "/v1/models" else config.metrics_path)

unfoldable pub metrics_of : LlmEndpointConfig → Response → Result (BTreeMap String F64) String
unfolding parse_prometheus
metrics_of config unreachable = err "ENDPOINT_UNREACHABLE"
metrics_of config (answered false body) = err "ENDPOINT_HTTP_ERROR"
metrics_of config (answered true body) =
    if is_openai config.backend
    then ok []
    else (do text ← ok_or body "ENDPOINT_BODY_ERROR"; ok (parse_prometheus text))

-- `fetch_endpoint`
unfoldable pub fetch_endpoint :
    (String → Response) → LlmEndpointConfig → Result (BTreeMap String F64) String
unfolding endpoint_url metrics_of
fetch_endpoint send config = metrics_of config (send (endpoint_url config))

pub data AuthError : Type 0 where
  reading no_colon bad_name bad_value : AuthError

module _ {Name Value : Type 0} (from_bytes : String → Option Name)
    (from_str : String → Option Value) where
  -- `read_auth_header`, of what reading the file yields
  unfoldable pub read_auth_header : Option String → Result (Name × Value) AuthError
  unfolding trim split_once
  read_auth_header file = do
    raw ← ok_or file AuthError.reading
    parts ← ok_or (split_once (λ c. c == b':') (trim raw)) AuthError.no_colon
    name ← ok_or (from_bytes (trim parts.0)) AuthError.bad_name
    value ← ok_or (from_str (trim parts.1)) AuthError.bad_value
    ok (name, value)
