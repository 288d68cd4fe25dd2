-- ===== src/Store/Spaces/Counts/Steps.antt =====
-- Every call on spaces and roles keeps the stored member counts right.
use mathlib.Core.Option
use meshserver.Base.{Option}
use meshserver.Model.Database.{Database}
