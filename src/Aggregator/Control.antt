-- ===== src/Aggregator/Control.antt =====
-- The aggregator thread of crates/aggregator/src/lib.rs around its loop: joining it, the history file
-- that it opens, and a resolver that cannot be made. What the file system, the clock and a join answer
-- is a parameter.
use netmon.Base.{ℕ, Bool, true, false, List, [], ◌++◌, map, Option, none, some, if◌then◌else◌}
use netmon.Base.Text.{Text, text}
use netmon.Base.Numbers.{decimal}
use netmon.Capture.Control.{Joined, returned, panicked, timed_out}
use netmon.Resolver.Api.{ResolverApi}
use netmon.Aggregator.Loop.{Published, Input, start_locals, run_aggregator_loop}

-- Whether the handle of the thread is still there to be joined.
pub record AggregatorControl : Type 0 where
  pub join_handle : Bool

unfoldable pub join_result : Joined → Option Text
join_result returned = none
join_result panicked = some (text "aggregator thread panicked")
join_result timed_out = some (text "aggregator thread join timed out")

-- The error, if there is one.
unfoldable pub join_timeout : Joined → AggregatorControl → Option Text × AggregatorControl
join_timeout joined control =
    if control.join_handle
    then (join_result joined, record { join_handle = false })
    else (none, control)

-- Whether the file could be opened, and whether its header could be written.
pub record CsvOpening : Type 0 where
  pub home : Text
  pub ts : ℕ
  pub opened : Bool
  pub header_written : Bool

unfoldable pub history_path : CsvOpening → Text
history_path o = o.home ++ (text "/netmon_history_" ++ (decimal o.ts ++ text ".csv"))

-- The contents of the file, if there is one.
unfoldable pub open_history_csv : CsvOpening → Option Text
open_history_csv o =
    if o.opened
    then (if o.header_written
        then some (
            text
              "timestamp,pid,tid,process,thread,user,uid,tx_bytes_total,rx_bytes_total,tx_2s_avg,rx_2s_avg,tx_10s_avg,rx_10s_avg\n")
        else none)
    else none

module _ (api : ResolverApi) where
  open api use {Resolver}

  -- The result of `Resolver::new`.
  pub data Made : Type 0 where
    made : Resolver → Made
    failed : Text → Made

  abbrev file_or_empty : Option Text → Text
  file_or_empty none = []
  file_or_empty (some file) = file

  abbrev has_file : Option Text → Bool
  has_file none = false
  has_file (some file) = true

  -- The snapshots when the thread ends, and the status that it leaves, if any. Each turn
  -- has the file, if it could be opened.
  unfoldable pub aggregator_thread :
      Made → CsvOpening → ℕ → List Input → Published → Published × Option Text
  aggregator_thread (failed error) o now inputs p =
      (p, some (text "Resolver initialization failed: " ++ error))
  aggregator_thread (made resolver) o now inputs p =
      let file = open_history_csv o in
      let csv = p.csv in
      let begun = record p { csv = record csv { file = file_or_empty file } } in
      (
        (run_aggregator_loop api
            (map (λ (i : Input). record i { has_history_csv = has_file file }) inputs)
            (start_locals now resolver, begun)).1,
        none,
      )
