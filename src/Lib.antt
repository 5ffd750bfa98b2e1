-- ===== src/Lib.antt =====
-- Models and theorems of dual_sleeve_trader, which trades two sleeves of a crypto account on a testnet.
--
-- The parts of the program and where they are modelled, by file below this one:
--   Core           src/dual_sleeve_trader/core/: enumerations with their texts, orders, filters,
--                  accounts, positions. Core/Enums and Core/Models.
--   Exchange       exchange/filters.py (floor_to_step, normalize_order_intent) in Filters, the protocol
--                  of exchange/interfaces.py in Interfaces, the in-memory adapter of
--                  exchange/binance_testnet.py in Inert, exchange/factory.py in Factory. The adapter of
--                  exchange/binance_rest.py is in Payloads (JSON values), Parsers (the parse_ functions),
--                  Requests (_request, sign_params), BinanceRest (the filters and their cache) and
--                  BinanceOrders (the other calls).
--   Config         config/runtime.py.
--   Execution      execution/: SafeMode, OrderState (order_state_machine.py), OrderIds (its dates in
--                  Calendar), Router (order_router.py and persistent_router.py), Reconciliation and
--                  PositionReconciliation over the comparison in Diff, Repair, Allocator
--                  (sleeve_b_allocator.py), AutoLoop (sleeve_b_testnet_loop.py).
--   Storage        storage/sqlite_store.py in Orders, storage/position_store.py in Positions.
--   Ops            ops/alerts.py, the loop of execution/reconciliation_runner.py and
--                  execution/periodic_reconciliation.py in Periodic, ops/daemon.py in Daemon. The loop
--                  that the last two write out is Loop. ops/testnet_read_write_smoke.py is
--                  ReadWriteSmoke; how the programs are put together (build_daemon_runner, ops/smoke.py,
--                  scripts/run_sleeve_b_auto_scan.py) is Startup.
--   Risk           risk/: CircuitBreakers, Capacity, Freshness (data_freshness.py), ManualOverride, Sizing
--                  (position_sizing.py), BorrowStress; portfolio/ledger.py in Ledger.
--   Strategies     strategies/sleeve_b.py in Signals, strategies/sleeve_a_scanner.py in Scanner;
--                  strategies/sleeve_b_replay.py in Bars (bars and their true range), Held (the loop over
--                  the bars of a trade), Replay (one trade) and Series (a series and its summary);
--                  strategies/sleeve_b_candidate_builder.py in Candidates.
--   Base, Decimal  texts, dictionaries, enumerations, exceptions, methods that raise, and Python's
--                  Decimal. Tests has concrete inputs.
-- An order goes from AutoLoop through Allocator and Router to an exchange and into Storage. The two
-- reconciliations, run by Periodic and Daemon, compare Storage with the exchange and enter the safe
-- mode on a difference; the router then refuses entries. Repair brings one stored order in line.
--
-- How the code is modelled:
--   An operation has the name of its method. A method that raises returns a Result, and one that
--   changes objects gets them as a state and returns them also when it raises (Base/Exec). An exchange,
--   a store and an alert sink are records of operations on a state of their own; the program's
--   protocols are these records, and Exchange/Inert and Storage fill them.
--   A Decimal has a sign, a magnitude and a number of places. Arithmetic rounds to 28 digits, half to
--   even, as the default context does; NaN, infinities and the limits of the exponent are left out.
--   A datetime is a number of microseconds since 1970. A call reads the clock once: the time is an
--   argument. A loop has a clock for its iterations, and what happens outside while it sleeps is an
--   argument as well. Whole numbers of the configuration are natural numbers.
--   A table is a dictionary of rows in the order of insertion. A column that holds the text of a Decimal
--   holds the Decimal here. Texts of tuples are those of items without quotes and escapes, and the
--   message of one filter error leaves out its figures.
--   Loops over lists are recursion on the list. The loops of the daemon run on fuel, one iteration each;
--   with a maximum of iterations, one more than the maximum is enough. The loop of a replay runs on fuel
--   too, one round each; one more than the number of four-hour bars is enough.
--   What the adapter of the testnet takes from other packages is a parameter: the network, the clock,
--   the encoding and the digest of a query, and the reading of a text as a Decimal or a whole number. A
--   JSON number is its text. An adapter's own world, behind the network, is a state of any type.
--
-- Not modelled: main.py, and the scripts but the scan, which parse arguments, call one function and
-- print; load_ohlc_csv of the replay, which reads a file; result_to_dict of the read-write run, which
-- renames fields for printing; the directory that build_daemon_runner makes; the SQL text and the
-- connections.
pub mod Base
pub mod Decimal
pub mod Core
pub mod Config
pub mod Execution
pub mod Exchange
pub mod Storage
pub mod Risk
pub mod Strategies
pub mod Ops
pub mod Tests
