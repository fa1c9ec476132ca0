-- ===== src/Schema/Point.antt =====
-- The constructors of `MetricPoint`. One of them panics on a name outside the catalogue, which is
-- `none` here.
use spark_signals.Prelude.{String, Option, none, some, [], if◌then◌else◌}
use spark_signals.Order.{text_ord}
use spark_signals.BTreeMap.{insert}
use spark_signals.Float.{F64}
use spark_signals.Schema.Types.{MetricPoint, Quality, InstrumentKind}
use spark_signals.Schema.Catalogue.{metric_name_allowed}

-- `MetricPoint::gauge`
unfoldable pub gauge : String → F64 → String → Quality → String → Option MetricPoint
gauge name value unit quality source =
    if metric_name_allowed name
    then some (record {
      name = name;
      instrument = InstrumentKind.gauge;
      value = some value;
      unit = unit;
      quality = quality;
      source = source;
      attributes = [];
      error_code = none;
    })
    else none

abbrev as_delta : Option MetricPoint → Option MetricPoint
as_delta none = none
as_delta (some point) = some (record point { instrument = InstrumentKind.counter_delta })

-- `MetricPoint::counter_delta`
unfoldable pub counter_delta : String → F64 → String → String → Option MetricPoint
unfolding gauge
counter_delta name value unit source = as_delta (gauge name value unit Quality.derived source)

-- `MetricPoint::with_attribute`
unfoldable pub with_attribute : String → String → MetricPoint → MetricPoint
unfolding insert
with_attribute key value point = record point { attributes = insert key value point.attributes }

-- `MetricPoint::unavailable`
unfoldable pub unavailable : String → String → Quality → String → String → Option MetricPoint
unavailable name unit quality source code =
    if metric_name_allowed name
    then some (record {
      name = name;
      instrument = InstrumentKind.gauge;
      value = none;
      unit = unit;
      quality = quality;
      source = source;
      attributes = [];
      error_code = some code;
    })
    else none
