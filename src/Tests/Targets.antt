-- ===== src/Tests/Targets.antt =====
-- The targets at a concrete credential file.
use Prim.Native.String as Text
use spark_signals.Prelude.{
  ℕ, ◌≡◌, ◌↔◌, refl, String, Bool, false, Option, some, List, [], ◌∷◌, any, ok, true,
}
use spark_signals.Bridge.Targets.{
  MapleOptions, is_configured, MaplePlugin, new_maple, MapleCredential, ParentMetadata,
  FileMetadata, PathState, PreparedOtlpTarget, override_variables, prepare_maple, exporter_config,
  standard_target, prepare_target, select,
}
use spark_signals.Bridge.Targets.Credential.{IsTrusted, prepare_maple-IsTrusted}
use spark_signals.Bridge.Targets.Naming.{IsPrepared, prepare_target-names}

abbrev credential : MapleCredential
credential = record {
  schema = "maple/v1";
  endpoint = "https://otlp.example:4318";
  password = "secret";
  producer = "spark";
  protocol = "http/protobuf";
  username = "maple-spark-a1";
}

abbrev from_slice : List ℕ → Option MapleCredential
from_slice bytes = some credential

abbrev base64 : String → String
base64 text = text

abbrev root_directory : ParentMetadata
root_directory = record { is_symlink = false; is_dir = true; uid = 0; mode = 493 }

abbrev state_of : String → PathState
state_of path = record {
  is_absolute = true;
  parents = some (some root_directory ∷ some root_directory ∷ []);
  opens = true;
  metadata = some (record { is_file = true; uid = 0; mode = 33152; len = 2 });
  bytes = some (1 ∷ 2 ∷ []);
}

abbrev is_set : String → Bool
is_set name = false

abbrev plugin : MaplePlugin
plugin = record { credential = "/etc/maple.json"; schema = "maple/v1"; producer = "spark" }

abbrev options : MapleOptions
options = record {
  credential = some "/etc/maple.json";
  credential_schema = some "maple/v1";
  producer = some "spark";
}

abbrev target : PreparedOtlpTarget
unfolding exporter_config
target = exporter_config base64 credential

prepared : prepare_maple from_slice base64 state_of is_set plugin ≡ ok target
unfolding prepare_maple spark_signals.Bridge.Targets.reject_otel_overrides
    spark_signals.Bridge.Targets.load_credential spark_signals.Bridge.Targets.validate_parents
    spark_signals.Bridge.Targets.validate_parent_metadata
    spark_signals.Bridge.Targets.validate_credential_metadata
    spark_signals.Bridge.Targets.validate_credential spark_signals.Text.strip_prefix
    spark_signals.Text.any_char spark_signals.Text.all_bytes target exporter_config
prepared = refl

prepare_maple-IsTrusted_example :
    (any is_set override_variables ≡ false)
    × ((c : MapleCredential) × IsTrusted from_slice plugin (state_of plugin.credential) c
        × (target.metrics_endpoint ≡ some (Text.◌++◌ c.endpoint "/v1/metrics"))
        × (target.logs_endpoint ≡ some (Text.◌++◌ c.endpoint "/v1/logs")))
prepare_maple-IsTrusted_example =
    prepare_maple-IsTrusted from_slice base64 state_of is_set plugin target prepared

by_name : prepare_target from_slice base64 state_of is_set "maple" options ≡ ok target
unfolding prepare_target select new_maple prepare_maple
    spark_signals.Bridge.Targets.reject_otel_overrides spark_signals.Bridge.Targets.load_credential
    spark_signals.Bridge.Targets.validate_parents
    spark_signals.Bridge.Targets.validate_parent_metadata
    spark_signals.Bridge.Targets.validate_credential_metadata
    spark_signals.Bridge.Targets.validate_credential spark_signals.Text.strip_prefix
    spark_signals.Text.any_char spark_signals.Text.all_bytes target exporter_config
by_name = refl

prepare_target-names_example :
    (prepare_target from_slice base64 state_of is_set "maple" options ≡ ok target)
    ↔ IsPrepared from_slice base64 state_of is_set "maple" options target
prepare_target-names_example =
    prepare_target-names from_slice base64 state_of is_set "maple" options target
