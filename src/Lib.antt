-- ===== src/Lib.antt =====
-- Verification of the OEE demonstrator: the OEE calculation over stored facts, the collector that turns
-- tag changes of the PLC into those facts, and the simulated cell that stands for the PLC.
--
-- The parts, and how they interact. The collector (backend/app/collector) receives data changes, groups
-- them by source timestamp (assembler.py), turns each group into database operations (tracker.py), and
-- watches the heartbeat for losses of communication (watchdog.py). What it stores, stops, counter samples
-- and gaps, is what the OEE core (backend/app/oee) reads: it builds windows (windows.py), classifies stops
-- (stops.py), turns cumulative counters into deltas (counters.py), computes times and ratios by interval
-- arithmetic (intervals.py, compute.py) and ranks stops (pareto.py). The operations are statements on
-- tables (store.py), from which the collector resumes after a restart. The PLC is simulated
-- (simulator/cell_sim): an engine with a queue of events (engine.py) runs a cell (cell.py) with its breaks
-- (shifts.py), disturbances (faults.py), electrode wear (wear.py) and injected faults (chaos.py).
--
-- Which file models which part:
--   Domain               backend/app/domain.py
--   Oee/Types            backend/app/oee/types.py
--   Oee/Intervals        backend/app/oee/intervals.py; its children say which points are covered and
--                        how many (Points, Algebra, Measure)
--   Oee/Counters         backend/app/oee/counters.py; Production relates the deltas to the parts made
--   Oee/Stops            backend/app/oee/stops.py
--   Oee/Ratios           _ratios in backend/app/oee/compute.py
--   Oee/Observed         _overlaps_gap, and rel, gap_iv, observed and within in compute_oee
--   Oee/Compute          compute_oee; the loop over _LOSS_STATES is `claim`, the loop over the deltas
--                        `tally_deltas`. Children: Accounting, Pointwise, Split
--   Oee/Invariant        check_invariant; its child Holds
--   Oee/Combine          compute_oee_windows and combine; its child Total
--   Oee/Windows          backend/app/oee/windows.py; its child Days
--   Oee/Grouped          compute_oee_grouped; its child Days
--   Oee/Timeline         backend/app/oee/timeline.py; its child Latest
--   Oee/Weld             backend/app/oee/weld.py; children Gains and Buckets
--   Oee/Pareto           backend/app/oee/pareto.py; its child Grouping
--   Collector/Types      backend/app/collector/types.py
--   Collector/Assembler  backend/app/collector/assembler.py; children Release, Trace
--   Collector/Tracker    backend/app/collector/tracker.py; children Stops and Runs
--   Collector/Watchdog   backend/app/collector/watchdog.py; its child Gaps
--   Collector/Pipeline   _process, _tick, _drain_on_shutdown and _write in
--                        backend/app/collector/pipeline.py; its child LastSeen
--   Collector/Store      backend/app/collector/store.py, on the tables of
--                        backend/app/db/migrations/versions/0001_initial_schema.py; children Batches
--                        (`apply`), Repeats (`exec`) and Recovery (`resume`)
--   Simulator/World      the floats and the random draws that the simulator takes from Python
--   Simulator/Model      simulator/cell_sim/model.py
--   Simulator/Config     simulator/cell_sim/config.py
--   Simulator/Valid      what is assumed of floats and draws, and what the validation ensures
--   Simulator/Wear       simulator/cell_sim/wear.py
--   Simulator/Faults     simulator/cell_sim/faults.py; its child Bounds
--   Simulator/Shifts     simulator/cell_sim/shifts.py; children Cover, NextBreak and Earliest
--   Simulator/Host       the Host protocol of cell.py: the queue and set_tag of engine.py
--   Simulator/Cell       the state and the transitions of simulator/cell_sim/cell.py; its child Handlers
--                        has the callbacks
--   Simulator/Engine     simulator/cell_sim/engine.py, chaos.py and persistence.py
--   Simulator/Ready      what holds between two events, and that every callback keeps it
--   The modules Tests run the definitions on concrete data and apply the theorems to it.
--
-- State and operations. A method of a class is a function from the object's record to its new record and
-- what it returns. A loop over a list is a structural recursion or a fold, a dict whose order is not
-- observed a function or a list of entries, a raised exception a value: `err` of `Result` in the OEE core,
-- and `none` for the ValueError of an unknown cell state, which ends the collector's process.
--
-- Numbers. An instant is a timezone-aware datetime as whole microseconds since an epoch, the resolution
-- of datetime; a duration is in microseconds, so the sums that the source makes with floats are exact
-- here, and a quotient is a fraction. Offsets from the start of a window may be negative and are integers
-- until `clip` cuts them to the window. The PLC's counters are numbers below 2 ^ 32. A float value of a
-- tag is a whole number of thousandths, and no value of a tag is negative.
--
-- Fuel. The loops over days in Oee/Windows run on fuel: `enough` gives one step for each day from the one
-- before the requested range to its end, and two more. The loop over the buckets in Oee/Weld has one step
-- for each microsecond from the first bucket to the end of the range, and one more, and a width is not 0.
-- The loop over the days in Simulator/Shifts has four days, of which the last begins after the instant
-- from which it looks; `run_until` in Simulator/Engine runs on fuel, which is its number of events.
--
-- The simulator. A method of the cell or of the engine takes the simulation to the next one, `none` where
-- it raises. The generators of `random` are states that a draw changes, and floats a type with operations
-- (Simulator/World), so what is shown holds for any draws. The clock is in whole microseconds, at least two
-- days after its origin, and a float duration becomes a signed number of whole microseconds when it is scheduled:
-- a negative delay goes back in time, at most to the origin of the clock. Where the source subtracts two
-- instants of which the first is the later one (the end of a slot or of a break, and the time that is
-- left), the difference is one of natural numbers. The heap is
-- the list of its events in the order in which they are taken, by time and then by number.
--
-- Not modelled. The text of a date is a parameter of Oee/Windows. Rounding of floats is not modelled in the
-- backend, nor are the tasks and queues of the pipeline (a step is atomic, and the store is assumed not to
-- raise). Of the tables only the columns that the collector writes are kept, without duration_s, which is
-- the difference of two others. Also not modelled: the HTTP API, the queries that read the tables, the
-- OPC UA client and server, the pacer, the derivation of generators from the seed, and reading and writing of files.
pub mod Prelude
pub mod Domain
pub mod Oee
pub mod Collector
pub mod Simulator
