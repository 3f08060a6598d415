-- ===== src/Lib.antt =====
-- The backend of the KernelCI dashboard: what the requests filter, and how the results of builds,
-- boots and tests are aggregated.
--
-- A client's request carries filters; FilterParams of backend/kernelCI_app/helpers/filters.py reads
-- them and decides for each row whether it is filtered out. Apart from the requests, the command
-- process_pending_aggregations (backend/kernelCI_app/management/commands) drains two tables of pending
-- tests and builds: a batch at a time, it counts them in hardware_status, tree_tests_rollup and
-- tree_listing, and keeps in processed_listing_items which of them were counted and with which status.
-- The ingester fills the pending tables. The views of a tree's details read the rows of its
-- tests, or of tree_tests_rollup, drop what the filters drop and summarize the rest.
--
-- Base: equality, dicts, integers and texts with Python's operations. An int is an ℤ over the native
--   numbers; a dict or a table with a key is an association list; a set is a list without repetitions. A
--   duration is a finite float, a numerator over a power of two, and `int` of it cuts off the fraction.
-- Status: StatusChoices and SimplifiedStatusChoices of models.py, simplify_status, is_boot.
-- Filters: helpers/filters.py. Issues has its functions on incidents; Request and Params read a query
--   string into FilterParams, a handler for each field; Rows has the four predicates is_*_filtered_out.
--   An exception is a value of Result. IssueListing is helpers/issueListing.py. Bounds and
--   IssueChoice describe what a bound and a filter on issues ask; Kept, Records, Parsing, Attribution,
--   Uncategorized and IssueListing prove.
-- Aggregation: the functions of process_pending_aggregations.py before the class. Models has the rows,
--   Counts the nine counters, Processed the table of processed items and the sets of a batch, Items
--   _check_item_was_processed and its callers, TreeListing and Hardware the two aggregations. A
--   function that changes a record or a set returns it. Effects, Totals, Stored, Credits, Ledger
--   and Repeats prove.
-- Rollup: management/commands/helpers/process_pending_helpers.py (Entries) and the methods on
--   tree_tests_rollup (Batch). Balance, Selected, Batches and Corrections prove.
-- Ingest: management/commands/helpers/aggregation_helpers.py, which fills the pending tables,
--   latest_checkout and tree_listing. Convert has the conversions, Tables the upserts of pending rows,
--   Latest and Listing those of checkouts, Submissions the call of all. LogExcerpt is
--   management/commands/helpers/log_excerpt_utils.py. Merge, Latest, Listing, Excerpts and Uploads
--   prove.
-- Details: helpers/treeDetails.py, helpers/treeDetailsRollup.py and the loops over rows of
--   views/treeDetailsSummaryView.py and views/treeDetailsView.py. Tally has counts by status, Misc the
--   miscellaneous data of a row, Row get_current_row_data, Instance the fields of a view, Summary the
--   breakdowns, Issues the issue tables and the unfiltered sets, Rows the loops over rows of tests,
--   RollupRow and Rollups the loop over rows of tree_tests_rollup, Builds the loop over builds,
--   BuildSummary create_details_build_summary of viewCommon.py, IssueRows helpers/detailsIssues.py,
--   Hardware the summary of tests of helpers/hardwareDetails.py, View what `get` of the summary view
--   does with the rows. A method that changes the view returns it. Frame has what each step leaves
--   alone; Selected, Legacy and Counted describe the rows that count; the other modules prove.
-- Pending: the class Command. Store has the tables, Fetch the queries for ready rows with their
--   cursors, Write the writes and the retries, Loop a round of process_pending_batch as a function from
--   the variables of the loop to another round, the end, or an exception. Cursor, Batches, Termination,
--   Counting and Retries prove.
-- Tests: data, and an instance of each result below.
--
-- The loop of process_pending_batch runs on fuel, one more than there are pending rows: each round but
-- the last moves a cursor past a row at least. The other loops are structural.
--
-- Parameters: the digest of hashlib, json.loads on an object, the answers to uploads, the order of ids
-- in the database, and how each transaction on tree_listing ends. The order is asked to be irreflexive and transitive, and ids not to be empty
-- texts. The keys of a batch are asked to differ, as the digests of different items do.
--
-- Not modelled: durations that are no finite number, letters and digits outside ASCII in `upper` and
-- `int`, SQL beyond the upserts and updates that are written out, other writers of the tables,
-- locks, the waits between retries, metrics, messages, filters that come in a JSON body, the responses
-- of the views, the queries, the notifications, the threads of the ingester and the frontend.
pub mod Base
pub mod Filters
pub mod Status
pub mod Aggregation
pub mod Rollup
pub mod Ingest
pub mod Details
pub mod Pending
mod Tests
