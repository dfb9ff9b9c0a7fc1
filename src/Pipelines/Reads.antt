-- ===== src/Pipelines/Reads.antt =====
-- Which reads reach the callback of the two pipelines.
use scrimmage.Prelude.{ℕ, List, [], ◌∷◌, take, if◌then◌else◌}
use scrimmage.Prelude.Int.{pos_part}
use scrimmage.Pipelines.{Read, failed}

-- The reads in front of the first that fails, and those that do not fail.
abbrev pub until_failure : List Read → List Read
until_failure [] = []
until_failure (r ∷ rs) = if failed r then [] else r ∷ until_failure rs

abbrev pub successes : List Read → List Read
successes [] = []
successes (r ∷ rs) = if failed r then successes rs else r ∷ successes rs

abbrev pub bytes_of : Read → List ℕ
bytes_of r = take (pos_part r.count) r.buffer
