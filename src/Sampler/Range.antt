-- ===== src/Sampler/Range.antt =====
-- `Sampler::sample` does not panic on an index, and its token is an index of the row.
use kairos_engine.Base.{List}
use kairos_engine.Sampler.{Sampler}
