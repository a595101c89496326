-- ===== src/External/Patterns.antt =====
-- match_pattern of cpp_utils, which is not part of this repository: whether a text fits a pattern
-- with wildcards.
use fast_dds_spy.Prelude.{Bool, String}

pub record Patterns : Type 1 where
  -- match_pattern(pattern, str)
  pub match_pattern : String → String → Bool
