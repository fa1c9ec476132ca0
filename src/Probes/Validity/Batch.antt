-- ===== src/Probes/Validity/Batch.antt =====
-- The collections of the probes and the decoding of the batches that they become.
use spark_signals.Prelude.{ℕ, String, Option, List}
use spark_signals.Points.Batch.{IsAcceptable, acceptable}
use spark_signals.Probes.Config.{ServiceConfig}
use spark_signals.Probes.Llm.{LlmProbe, Visit, collect_llm}
use spark_signals.Probes.Services.{CgroupBaselines, collect_services}
use spark_signals.Probes.Validity.Llm.{collect_llm-AllMade}
use spark_signals.Probes.Validity.Services.{collect_services-AllMade}

-- Whatever the endpoints answer and at whatever times, a collection of the LLM probe does not panic.
-- Its points have catalogue names and at most 24 attributes, so that the batch of them passes the test
-- of the decoder exactly if no attribute's value has more than 256 bytes.
pub collect_llm-IsAcceptable :
    (visits : ℕ → Visit) (probe : LlmProbe) → IsAcceptable (collect_llm visits probe).1
collect_llm-IsAcceptable visits probe =
    acceptable (collect_llm visits probe).1 (collect_llm-AllMade visits probe)

-- Whatever systemctl prints for the units and the files of their control groups hold, a collection of
-- the service probe does not panic. Its points have catalogue names and at most 24 attributes, so that
-- the batch of them passes the test of the decoder exactly if no attribute's value has more than 256
-- bytes.
pub collect_services-IsAcceptable :
    (read show : String → Option String) (configs : List ServiceConfig)
    (baselines : CgroupBaselines)
    → IsAcceptable (collect_services read show configs baselines).1
collect_services-IsAcceptable read show configs baselines =
    acceptable (collect_services read show configs baselines).1
      (collect_services-AllMade read show configs baselines)
