-- ===== src/Bridge/Targets/Selected.antt =====
-- plugins/mod.rs and plugins/standard.rs: the choice of the target by its name.
use spark_signals.Prelude.{
  ℕ, String, Bool, not, Option, none, List, [], Result, ok, err, ensure, ◌>>=◌, ◌>>◌, if◌then◌else◌,
}
use spark_signals.Order.{◌==◌, text_ord}
use spark_signals.Bridge.Targets.Maple.{
  MapleOptions, is_configured, MaplePlugin, new_maple, MapleCredential, PathState,
  PreparedOtlpTarget, http_protobuf, TargetError, prepare_maple,
}

pub data Plugin : Type 0 where
  standard : Plugin
  maple : (plugin : MaplePlugin) → Plugin

-- `StandardPlugin::new`
unfoldable pub new_standard : MapleOptions → Result Plugin TargetError
new_standard options = do
  ensure (not (is_configured options)) TargetError.maple_for_standard
  ok standard

-- `select`
unfoldable pub select : String → MapleOptions → Result Plugin TargetError
select name options =
    if name == "standard"
    then new_standard options
    else if name == "maple"
    then (do plugin ← new_maple options; ok (maple plugin))
    else err TargetError.unknown_target

-- the target that leaves all to the environment
abbrev pub standard_target : PreparedOtlpTarget
standard_target = record {
  plugin_name = "standard";
  protocol = http_protobuf;
  metrics_endpoint = none;
  logs_endpoint = none;
  headers = [];
  diagnostics = [];
}

module _ (from_slice : List ℕ → Option MapleCredential) (base64 : String → String)
    (state_of : String → PathState) (is_set : String → Bool) where
  abbrev pub prepare : Plugin → Result PreparedOtlpTarget TargetError
  prepare standard = ok standard_target
  prepare (maple plugin) = prepare_maple from_slice base64 state_of is_set plugin

  -- what `main` does with the name and the options
  unfoldable pub prepare_target : String → MapleOptions → Result PreparedOtlpTarget TargetError
  prepare_target name options = do plugin ← select name options; prepare plugin
