-- ===== src/Bridge/Targets/Maple.antt =====
-- plugins/maple.rs: the credential file and what is made of it. The file system is given by what the
-- calls on the credential's path yield; JSON decoding and base64 encoding are parameters.
use Prim.Native.String.{◌++◌}
use spark_signals.Prelude.{
  ℕ, suc, zero, ◌+◌, ◌*◌, ◌/◌, ◌%◌, String, Bool, not, ◌&&◌, ◌||◌, Option, none, some, List, [],
  ◌∷◌, any, length, eqb, ltb, is_some, is_some_and, Result, ok, err, ok_or, ensure, ◌>>=◌, ◌>>◌,
}
use spark_signals.Order.{◌==◌, text_ord, nat_ord}
use spark_signals.BTreeMap.{BTreeMap}
use spark_signals.Text.{
  is_empty, all_bytes, any_char, is_whitespace, is_ascii_alphanumeric, strip_prefix,
  trim_end_matches, concat,
}

abbrev pub max_maple_credential_bytes : ℕ
max_maple_credential_bytes = 16 * 1024

pub record MapleOptions : Type 0 where
  pub credential : Option String
  pub credential_schema : Option String
  pub producer : Option String

-- `MapleOptions::is_configured`
abbrev pub is_configured : MapleOptions → Bool
is_configured options =
    is_some options.credential || is_some options.credential_schema || is_some options.producer

pub record MaplePlugin : Type 0 where
  pub credential : String
  pub schema : String
  pub producer : String

pub record MapleCredential : Type 0 where
  pub schema : String
  pub endpoint : String
  pub password : String
  pub producer : String
  pub protocol : String
  pub username : String

pub data TargetError : Type 0 where
  no_credential no_schema no_producer overridden not_absolute no_parent parent_unreadable :
      TargetError
  parent_not_directory parent_not_root not_opened no_metadata not_regular not_root bad_mode :
      TargetError
  bad_size not_read too_large not_decoded bad_schema bad_producer bad_endpoint bad_protocol :
      TargetError
  bad_username bad_password maple_for_standard unknown_target : TargetError

-- `MaplePlugin::new`
unfoldable pub new_maple : MapleOptions → Result MaplePlugin TargetError
new_maple options = do
  credential ← ok_or options.credential no_credential
  schema ← ok_or options.credential_schema no_schema
  producer ← ok_or options.producer no_producer
  ok (record { credential = credential; schema = schema; producer = producer })

pub record ParentMetadata : Type 0 where
  pub is_symlink : Bool
  pub is_dir : Bool
  pub uid : ℕ
  pub mode : ℕ

pub record FileMetadata : Type 0 where
  pub is_file : Bool
  pub uid : ℕ
  pub mode : ℕ
  pub len : ℕ

-- what a path leads to: its parents that have a name, the file if it opens, and its metadata and
-- bytes if they can be read
pub record PathState : Type 0 where
  pub is_absolute : Bool
  pub parents : Option (List (Option ParentMetadata))
  pub opens : Bool
  pub metadata : Option FileMetadata
  pub bytes : Option (List ℕ)

-- `mode & 0o022 != 0`: the bits of weight 2 and 16
abbrev pub others_write : ℕ → Bool
others_write mode = eqb (mode / 2 % 2) 1 || eqb (mode / 16 % 2) 1

-- `validate_parent_metadata`
unfoldable pub validate_parent_metadata : ParentMetadata → Result (Unit {0}) TargetError
validate_parent_metadata m = do
  ensure (not (m.is_symlink || not m.is_dir)) parent_not_directory
  ensure (not (not (eqb m.uid 0) || others_write m.mode)) parent_not_root

-- the loop of `validate_root_owned_parent_chain`
unfoldable pub validate_parents : List (Option ParentMetadata) → Result (Unit {0}) TargetError
validate_parents [] = ok tt
validate_parents (none ∷ parents) = err parent_unreadable
validate_parents (some m ∷ parents) = do validate_parent_metadata m; validate_parents parents

-- `validate_credential_metadata`; `mode & 0o7777` is the mode modulo 4096, and 0o600 is 384
unfoldable pub validate_credential_metadata : FileMetadata → Result (Unit {0}) TargetError
validate_credential_metadata m = do
  ensure m.is_file not_regular
  ensure (eqb m.uid 0) not_root
  ensure (eqb (m.mode % 4096) 384) bad_mode
  ensure (not (eqb m.len 0 || ltb max_maple_credential_bytes m.len)) bad_size

-- `file.take(n).read_to_end(..)`
abbrev pub take : ℕ → List ℕ → List ℕ
take zero bytes = []
take (suc n) [] = []
take (suc n) (b ∷ bytes) = b ∷ take n bytes

-- `Option::or_else`
abbrev pub or_else : Option String → Option String → Option String
or_else none other = other
or_else (some value) other = some value

-- the authority of an endpoint, if its scheme is http or https
abbrev pub authority : String → Option String
authority endpoint = or_else (strip_prefix endpoint "http://") (strip_prefix endpoint "https://")

abbrev pub is_path_mark : ℕ → Bool
is_path_mark c = c == b'/' || c == b'?' || c == b'#'

abbrev pub valid_authority : String → Bool
valid_authority value =
    not (is_empty value) && not (any_char is_path_mark value) && not (any_char is_whitespace value)

abbrev pub valid_suffix : String → Bool
valid_suffix suffix = not (is_empty suffix) && all_bytes is_ascii_alphanumeric suffix

-- `validate_credential`
unfoldable pub validate_credential :
    MapleCredential → String → String → Result (Unit {0}) TargetError
validate_credential c schema producer = do
  ensure (not (is_empty schema || not (c.schema == schema))) bad_schema
  ensure (c.producer == producer) bad_producer
  ensure (is_some_and (authority c.endpoint) valid_authority) bad_endpoint
  ensure (c.protocol == "http/protobuf") bad_protocol
  ensure
      (is_some_and (strip_prefix c.username (concat ("maple-" ∷ producer ∷ "-" ∷ []))) valid_suffix
        && not (any_char (λ x. x == b':') c.username))
      bad_username
  ensure (not (is_empty c.password || any_char (λ x. x == b'\r' || x == b'\n') c.password))
      bad_password

pub data OtlpProtocol : Type 0 where
  http_protobuf : OtlpProtocol

pub record PreparedOtlpTarget : Type 0 where
  pub plugin_name : String
  pub protocol : OtlpProtocol
  pub metrics_endpoint : Option String
  pub logs_endpoint : Option String
  pub headers : BTreeMap String String
  pub diagnostics : BTreeMap String String

abbrev pub override_variables : List String
override_variables =
    "OTEL_EXPORTER_OTLP_ENDPOINT" ∷ "OTEL_EXPORTER_OTLP_METRICS_ENDPOINT"
    ∷ "OTEL_EXPORTER_OTLP_LOGS_ENDPOINT" ∷ "OTEL_EXPORTER_OTLP_PROTOCOL"
    ∷ "OTEL_EXPORTER_OTLP_METRICS_PROTOCOL" ∷ "OTEL_EXPORTER_OTLP_LOGS_PROTOCOL"
    ∷ "OTEL_EXPORTER_OTLP_HEADERS" ∷ "OTEL_EXPORTER_OTLP_METRICS_HEADERS"
    ∷ "OTEL_EXPORTER_OTLP_LOGS_HEADERS" ∷ []

-- `exporter_config`
unfoldable pub exporter_config : (String → String) → MapleCredential → PreparedOtlpTarget
exporter_config base64 c =
    let endpoint = trim_end_matches b'/' c.endpoint in
    record {
      plugin_name = "maple";
      protocol = http_protobuf;
      metrics_endpoint = some (endpoint ++ "/v1/metrics");
      logs_endpoint = some (endpoint ++ "/v1/logs");
      headers =
          ("authorization", "Basic " ++ base64 (concat (c.username ∷ ":" ∷ c.password ∷ []))) ∷ [];
      diagnostics = ("producer", c.producer) ∷ [];
    }

module _ (from_slice : List ℕ → Option MapleCredential) where
  -- `load_credential`
  unfoldable pub load_credential : PathState → String → String → Result MapleCredential TargetError
  load_credential path schema producer = do
    ensure path.is_absolute not_absolute
    parents ← ok_or path.parents no_parent
    validate_parents parents
    ensure path.opens not_opened
    metadata ← ok_or path.metadata no_metadata
    validate_credential_metadata metadata
    all_bytes ← ok_or path.bytes not_read
    let bytes = take (max_maple_credential_bytes + 1) all_bytes
    ensure (not (ltb max_maple_credential_bytes (length bytes))) too_large
    credential ← ok_or (from_slice bytes) not_decoded
    validate_credential credential schema producer
    ok credential

-- `reject_otel_overrides_with`
unfoldable pub reject_otel_overrides : (String → Bool) → Result (Unit {0}) TargetError
reject_otel_overrides is_set = ensure (not (any is_set override_variables)) overridden

module _ (from_slice : List ℕ → Option MapleCredential) (base64 : String → String)
    (state_of : String → PathState) (is_set : String → Bool) where
  -- `MaplePlugin::prepare`
  unfoldable pub prepare_maple : MaplePlugin → Result PreparedOtlpTarget TargetError
  prepare_maple plugin = do
    reject_otel_overrides is_set
    credential ←
        load_credential from_slice (state_of plugin.credential) plugin.schema plugin.producer
    ok (exporter_config base64 credential)
