-- ===== src/Format.antt =====
-- The verbs %q and %d of Go's package fmt, which is not part of the repository.
use workbenches_operator.Prelude.{String}
use workbenches_operator.Json.{ℤ}

pub record Format : Type 0 where
  -- %q
  pub quote : String → String
  -- %d
  pub show_int : ℤ → String
