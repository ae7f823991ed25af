-- ===== src/Rmbt/Connection/Ends.antt =====
-- The end of every connection of the older server (src/tokio_server/connection_handler.rs).
use nettest.Common.{ℕ, ◌<◌, Bool, true, false, [], Option, some, length, ◌≡◌}
use nettest.Rmbt.{Done, done, lost, broken, waits, writes_on}
use nettest.Rmbt.RandomBuffer.{RandomBuffer}
use nettest.Rmbt.Within.{Within}

-- Where the loop goes on, fewer than so many reads are left.
abbrev Fewer : ℕ → Done Bool → Type 0
Fewer n (done true p) = length p.reads < n
Fewer n (done false p) = Unit
Fewer n (lost p) = Unit
Fewer n (broken p) = Unit
Fewer n (waits p) = p.reads ≡ []
Fewer n (writes_on p) = Unit

-- A connection that waits has nothing left to read.
abbrev pub IsRead : Done Unit → Type 0
IsRead (waits p) = p.reads ≡ []
IsRead _ = Unit

-- The rounds are enough for an outcome.
abbrev pub Ends : Option (Done Unit) → Type 0
Ends o = (r : Done Unit) × (o ≡ some r) × IsRead r
