-- ===== src/Sql/Reference.antt =====
-- An engine that meets the assumptions: filter, group by the keys in turn, sort by insertion, cut.
pub mod Sorting
pub mod Keys
pub mod Rows
pub mod Groups
use trace_pilot.Sql.Statement.{Engine, IsEngine}
use Keys.{keys_of, contains-keys_of}
use Rows.{select, select-IsSelected}
use Groups.{group, group-IsGrouped}

-- A concrete engine.
unfoldable pub reference : Engine
unfolding select group keys_of
reference = record { select = select; group = group; distinct = keys_of }

pub reference-IsEngine : IsEngine reference
unfolding reference
reference-IsEngine = record {
  select_lem = select-IsSelected;
  group_lem = group-IsGrouped;
  distinct_lem = contains-keys_of;
}
