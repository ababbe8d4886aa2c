-- ===== src/Lib.antt =====
-- Compute Quant Lab: GPU rental prices are collected into snapshots, a spot index is fixed from
-- them, features and models are built on what was known at each instant, and strategies are
-- tested against a look-ahead guard.
--
-- Models.PurgedKFold (core/models/validation.py, `PurgedKFold`): `make` is the constructor,
-- `split` the generator as a list of folds, `train_mask` the three slice assignments.
-- Models.OutOfSample: `oos_predict` of the same file. `np.array_split` is a parameter, with its
-- documented behaviour in `IsArraySplit`; the model's `fit` and `predict_proba` are parameters.
-- Backtest.Guards (core/backtest/guards.py): `GuardedView`, and the view as a strategy sees it.
-- Backtest.Loop (core/backtest/reference_loop.py): `accumulate`. Backtest.Engine
-- (core/backtest/engine.py): `run`, both phases; the strategy is a function of its own state and
-- of a view, and the metrics are a parameter, as they are injected in the source. The engine's
-- kernel is the Python loop; the Rust kernel is not modelled.
-- Ingestion.Protocols (core/ingestion/protocols.py): the records. Ingestion.ComputeIndex
-- (core/ingestion/compute_index.py): `build_spot_index`, cut into the selection of the relevant
-- snapshots, the grouping by source, the reduction to one rate for each venue, and the fix. The
-- estimator and the outlier filter are parameters, as they are injected in the source.
-- Ingestion.Median: `statistics.median` of Python's standard library, over insertion sort.
-- Ingestion.Providers (core/ingestion/providers/__init__.py and base.py): `fetch_all` over a list
-- of venues, and the keys of `EnvKeyedProvider`. Ingestion.Energy
-- (core/ingestion/energy/base.py): the registry of markets; Ingestion.Energy.Ercot (ercot.py):
-- the reports of the Texas market and what is known of them at an instant, over what pandas does
-- to columns and rows; Ingestion.Energy.Transport (ercot_transport.py): the hosted service with
-- its client, its key and its retries, and how the market finds its transport.
-- Ingestion.Venues (core/ingestion/providers): a module for each of the seven venues (vastai.py,
-- runpod.py, primeintellect.py, datacrunch.py, cudo.py, hyperstack.py, tensordock.py), each with
-- its parser, one function for a turn of each of its loops, and its `fetch_<venue>`; GpuModel is
-- `normalize_gpu_model` of base.py, and Registry the tuple `PROVIDERS`, which `fetch_all` of
-- Ingestion.Providers runs. Ingestion.Json has the payloads and what Python's built-ins do on
-- them. The HTTP client, the conversions between texts and numbers and the changes of case are
-- parameters.
-- Ingestion.Estimators (core/ingestion/estimators.py): the filters and the estimators, over
-- numpy's functions as parameters; Ingestion.Estimators.Bounds shows that they fill what the spot
-- index asks of them.
-- Ingestion.SnapshotStore (core/ingestion/snapshot_store.py): `CsvSnapshotStore` over a directory
-- of files of lines of cells; `load` and `append` with their loops, where what Python does to
-- numbers and instants as texts is a parameter with its documented behaviour in `IsFormats`.
-- Storage (core/storage): Storage.Schema (schema.py), Storage.Lake and Storage.Append, what both
-- Parquet stores share, Storage.PriceStore (parquet_store.py), Storage.EnergyStore
-- (energy_store.py) and Storage.Converters (converters.py, snapshot_store.py). A frame is its
-- names, the time zones of its columns and its rows; what pandas does to a cell is a parameter,
-- with its documented behaviour in `IsPandas`, and so is the lake of files, with `IsLake`.
-- Benchmark (projects/13_compute_benchmark/src/benchmark/dispersion.py and index_series.py): the
-- dispersion and the levels of the venues, and the index sampled over a grid of fixes. Service
-- (projects/14_service/src/views.py, signal_iface.py and alerts.py): the view of a market, the
-- recommendation and the alerts, on top of the index.
-- Desk (projects/10_portfolio_execution/src): Desk.Portfolio (portfolio.py), Desk.Execution
-- (execution.py), Desk.Strategy (desk.py, `DeskStrategy` with its producers and their states),
-- Desk.Mocks (signals.py) and Desk.Report (run_desk.py), run by the engine of Backtest.
-- Backtest.Metrics (core/backtest/metrics.py and costs.py): the metrics of a ledger, and the
-- linear cost of a trade.
-- Models.Pipeline (core/models/pipeline.py): `build_labels`, with the `shift` of pandas as a
-- parameter.
-- Features (core/features/builders.py): snapshots of vintage frames and
-- `PointInTimeFeatureBuilder`, and `to_utc_index` of core/utils/timeindex.py; the group-wise
-- maximum and the sort of pandas are parameters, with their documented behaviour in `IsFrames`.
-- Signals (core/signals/protocols.py), Signals.MeanReversion (core/signals/mean_reversion.py) and
-- Signals.Precomputed (core/models/strategy.py, core/signals/ml.py): the producers, as strategies
-- that the engine of Backtest runs; Signals.FuturesBasis (core/signals/futures_basis.py) with
-- Pricing.Futures (core/pricing/derivatives/carry.py and futures.py), where `exp` and `log` are
-- parameters; Pricing.SparkSpread (pricer.py, fx.py, power_model.py, pue_prior.py and oracle.py
-- of core/pricing) is the margin of compute over energy; Signals.Runs is about whole runs of the
-- band.
-- Utils.Net (core/utils/net.py): `call_with_retry`, over a call that may answer each attempt
-- differently. Utils.Coerce (core/utils/coerce.py): the conversions of loosely typed values.
--
-- Python's floats are a type with the operations that the code calls (Prelude.Float); what the
-- theorems need of them is the order of the finite doubles and, for the median, that an average
-- of two lies between them; for the desk, also the sign of an opposite, and zero and
-- multiplication among the finite ones. A NaN is the `none` of an option. Overflow to an infinity
-- is not modelled. An instant is a number of microseconds since the first `datetime`, in UTC.
-- Exceptions are values of Prelude.Result. Loops are recursions on a list or on the rounds that
-- are left; the loop of `call_with_retry` has fuel for `max_retries + 1` attempts, and Utils.Net
-- shows that it never runs out. Log lines are left out. Not modelled: the queries of DuckDB and
-- the demonstration data of core/storage, the rest of core/pricing, the other research projects,
-- the Rust kernels, and what only talks to a third-party library or service.
pub mod Prelude
pub mod Utils
pub mod Models
pub mod Features
pub mod Backtest
pub mod Pricing
pub mod Signals
pub mod Ingestion
pub mod Storage
pub mod Benchmark
pub mod Service
pub mod Desk
pub mod Tests
