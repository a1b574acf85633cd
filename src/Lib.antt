-- ===== src/Lib.antt =====
-- Kaja's user interface keeps what a script did: every press of Run is a run, the calls it makes,
-- the blocks it draws and the lines it prints are the items of that run, and every file has a
-- console that keeps its runs. This library models that bookkeeping, what is stored of it between
-- sessions, the tables that a script fills while it runs and after, the questions it asks and the
-- calls it holds back, and the small pure parts beside them: the pager of a table, the folds of the
-- sidebar's tree, the drafts and the cache of mounted views.
--
-- The parts, the file of the repository each comes from, and the modules that model it:
--
--   ui/src/consoles.ts   Group (`Group`: append, patched, mark), FileConsole (`FileConsole`, with
--                        Record for what a run reports, Runs for runs and the store) and Consoles
--                        (`Consoles`, with Writes, Files and Flags).
--   ui/src/runs.ts       Run (items, statuses, levels), Run/Stats (`ItemStats`, `worstStatus`),
--                        Group/Notices (`failureNotices`, `unreported`), Group/Rows (`callRows`,
--                        `printedCounts`, `presentRun`, `followSelection`).
--   ui/src/runStrip.ts   Strip (`RunStrip`, `mergeEvery`, `barHeight`).
--   ui/src/blocks.ts     Block, and Block/Cells for the sparse map of cells.
--   ui/src/kaja.ts       Call (`MethodCall` as the console reads it, `isCallInFlight`).
--   ui/src/loopKey.ts    LoopKey, over the values of Value.
--   ui/src/tableView.ts  TableView (`tableWindow`), with Asking (`pullNeeded`, `pendingCells`,
--                        `bodyMinHeight`, `tableSummary`).
--   ui/src/treeExpansion.ts  Tree, with Seeds (`seedFolds`), Ledger (`withUse`) and Pruning
--                        (`pruneFolds`).
--   ui/src/kaja.ts       Live, the tables of a script: cells and their work (`#startCell`,
--                        `#fillCell`, `#writeCell`) with Live/Cells, Live/Rows (`table`, `#declareRow`),
--                        Live/Pulls (`pullTable`, `#fill`), Live/Registry (`LiveTables`). What the
--                        functions of a script write at once is Live/Scripts, and what can happen to
--                        a table, in any order, is Live/Reach.
--   ui/src/runStore.ts   RunStore (`toStoredItem`) with ui/src/httpEnvelope.ts, RunStore/Files
--                        (`serializeFile`, `deserializeFile`) and RunStore/Archive (`pruneArchive`,
--                        `saveRuns`, `loadRuns`).
--   ui/src/ask.ts        Ask (`parseInteger`, `normalizeAnswer`).
--   ui/src/kaja.ts       Approvals (`Call`, `approve`).
--   ui/src/typeMemory.ts TypeMemory (`remember`, `evictOldKeys`, `recallValues`).
--   ui/src/drafts.ts     Drafts.
--   ui/src/views.ts      Views.
--
-- A report of a script goes through Consoles.Writes to the console of its file, from there to the
-- group of its run, and the group counts it in its statistics and its strip. Functions keep the
-- source's names, in this language's spelling; an object that a method changes is an argument and a
-- result. Proofs stand in modules of their own, named for what they prove; Prelude has the shared
-- types, lists over native numbers, the `Map` with text keys (Prelude/Dict), an object with number
-- keys (Prelude/NatDict) and texts (Prelude/Text). The examples are in Tests.
--
-- How state is modelled. Items and groups are objects that lists and maps share, so each file has
-- two heaps of them that only grow, and the lists hold places in the heap. A call that is handed
-- over again is the same object, so its new content takes the place of the old. The memo of `get
-- groups` is not kept, since every operation that changes the groups clears it. What subscribers
-- are told is appended to a list of notices, in order; a frame that the scheduler owes is a flag,
-- and its callback an operation. What a source of rows yields, what the work of a cell gives and
-- what the user decides are operations too, so every order in which promises settle is a list of
-- operations; a promise that settles and the code that follows it are one operation. A function of
-- a cell runs at once as far as its first wait, while its row is being declared and before it
-- counts as in flight; what it writes to its own table there is a parameter, a list of writes for
-- each function and table, and the functions that those writes start write in turn. While `table`
-- declares the rows it was given, no function has the table's handle yet. Identifiers and times are
-- arguments. An absent field and `undefined` are one.
--
-- Bounds and fuel. `merge_every` takes at least one bucket in a round, so the number of buckets is
-- enough fuel. `push` calls itself once at most, since a merge of 200 buckets leaves 100, so fuel 2
-- is enough. A numeral of n has fewer than n + 1 digits. Functions that start one another at once
-- do so to a depth, which is an argument: below it they write nothing, and a chain that ends is
-- whole at its own depth, while one without an end overflows the stack. Counters, times and sizes
-- are natural numbers without an upper bound: the source holds them in doubles, which are exact far
-- beyond the numbers that occur.
--
-- What is not modelled. The code that draws (the React components), the editor, the network, the
-- browser's storage, the compilation of apps, the evaluation of scripts, and the programs in Go.
-- `toLowerCase`, `toLocaleString` and the title that `deriveDraftTitle` reads from code are
-- parameters, and so is the size that `JSON.stringify` gives. Lengths of texts are in UTF-16 units;
-- a slice that would cut a surrogate pair leaves the pair out. The height of a bar is computed with
-- rational numbers. The labels of blocks, items and strips, the identities of views and what is
-- persisted of them are left out, and so are the waiting of `settleTables` and the walk of a
-- message that finds the values to remember.
pub mod Prelude
pub mod Value
pub mod Live
pub mod LoopKey
pub mod Call
pub mod Block
pub mod Ask
pub mod Approvals
pub mod TypeMemory
pub mod Run
pub mod RunStore
pub mod Strip
pub mod Group
pub mod FileConsole
pub mod Consoles
pub mod TableView
pub mod Tree
pub mod Drafts
pub mod Views
pub mod Tests
