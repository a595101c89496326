-- ===== src/External/Times.antt =====
-- DataTime of ddspipe_core and the arithmetic of float, which the models do not compute.
use fast_dds_spy.Prelude.{Bool, true, ◌≡◌, ℕ}

pub record Times : Type 1 where
  pub DataTime : Type 0
  pub Float : Type 0
  pub zero_float : Float
  pub infinity : Float
  -- b.seconds() - a.seconds(), as a float
  pub seconds_between : DataTime → DataTime → Float
  pub is_zero : Float → Bool
  pub is_zero-seconds_between : (t : DataTime) → is_zero (seconds_between t t) ≡ true
  -- static_cast<float>(n) / x
  pub divide : ℕ → Float → Float

abbrev pub DataTime : ⦃M : Times⦄ → Type 0
DataTime ⦃M⦄ = M.DataTime

abbrev pub Float : ⦃M : Times⦄ → Type 0
Float ⦃M⦄ = M.Float
