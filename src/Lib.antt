-- ===== src/Lib.antt =====
-- The Airbyte Python CDK (airbyte_cdk): what a source runs to read streams, keep their state and
-- emit messages.
--
-- Shared: Prelude passes on the libraries' names, and Python holds what the code takes from Python:
-- exceptions as values, generators as the items they yield with how they end, dictionaries and sets
-- as lists, and the stable sort. An exception is its class; its text and the logger are not modelled.
--
-- StateConverter follows airbyte_cdk/sources/streams/concurrent/state_converters: a concurrent state
-- is a list of intervals. A datetime is the number of its microseconds after datetime.min; parsing
-- and formatting a timestamp are fields of the record Converter, since they call pendulum. What an
-- exception leaves half changed inside a slice is not modelled.
--
-- ConcurrentCursor follows airbyte_cdk/sources/streams/concurrent/cursor.py. Its arguments are the
-- record Config, its changing fields the record Cursor; a timedelta is never negative. The loop that
-- splits a range of the cursor takes as fuel one more than the length of the range, which is enough
-- because each round passes at least one microsecond. The end provider is read once per run.
--
-- ReadProcessor follows airbyte_cdk/sources/concurrent_source/concurrent_read_processor.py and, in
-- ReadProcessor/Consume, the loop of concurrent_source.py. The items of the queue are a list, each
-- with what `queue.empty()` says after it was handled; a loop that waits for an item that never comes
-- is `blocked`. The record Environment holds what cursors, slice logger and message repository do.
-- ReadProcessor/Consume/EmptyRecord is about an item of the queue that is not truthy.
--
-- Workers follows partition_enqueuer.py and partition_reader.py of airbyte_cdk/sources/streams/concurrent
-- with the same loop: the steps of the pool, of its workers and of the main thread come in any order,
-- which is a list of choices. A thread that waits, for the pool or for room in the queue, is one that is
-- chosen later. Streams and partitions give what the record Sources says.
--
-- CheckpointReader follows airbyte_cdk/sources/streams/checkpoint/checkpoint_reader.py without the
-- reader for older cursor streams; the loop of a resumable full refresh takes as fuel one more than the
-- number of pages that are left. Stream follows `read` of airbyte_cdk/sources/streams/core.py with any of
-- these readers, each an instance of the record CheckpointReader of Stream; its loop takes as fuel one
-- more than the number of slices. A state that it emits stands for the message that the state manager
-- makes of it.
--
-- CallRate follows airbyte_cdk/sources/streams/call_rate.py: FixedWindow, Budget for the policies of
-- every kind with the loop that acquires a call, and Matching for requests. Times are numbers of
-- microseconds, and a negative time to wait is 0. The attempts of a call see the time through the
-- record Clock; the loop recurses on the attempts that are left. What pyrate_limiter does with a bucket
-- is the record Limiter.
--
-- Pagination follows airbyte_cdk/sources/declarative/requesters/paginators, and Pagination/Retriever
-- `_read_pages` of airbyte_cdk/sources/declarative/retrievers/simple_retriever.py. The requester and the
-- record selector are the record Api, interpolated values are functions. The loop over the pages takes
-- as fuel the number of its rounds.
--
-- AsyncJob follows airbyte_cdk/sources/declarative/async_job: JobTracker, where the test of add_job outside
-- the lock and its addition under it are steps of their own, and of job_orchestrator.py
-- the attempts of AsyncPartition, LookaheadIterator over a list of items, and in Starting and Orchestrator
-- the AsyncJobOrchestrator. The job repository is the record Api: what starting a job and asking for
-- statuses give may change at any call. The loop takes as fuel the number of its rounds, since nothing
-- bounds how long a job runs; what is shown of it holds after any number of rounds.
--
-- StateManager follows airbyte_cdk/sources/connector_state_manager.py over any type of descriptors and
-- blobs. MessageRepository follows airbyte_cdk/sources/message/repository.py without the decorator that
-- merges JSON objects into log messages.
--
-- GlobalCursor follows airbyte_cdk/sources/declarative/incremental/global_substream_cursor.py: the
-- generator of slices and the threads that close them take their steps in any order, a list of choices.
--
-- FileCursor follows the cursors of file-based streams, FileCursor/Default
-- airbyte_cdk/sources/file_based/stream/cursor/default_file_based_cursor.py and FileCursor/Concurrent
-- stream/concurrent/cursor/file_based_concurrent_cursor.py. A history is a dictionary of texts, which
-- compare by code points; strftime and strptime are fields of the record DateTimeFormat.
--
-- PerPartition follows airbyte_cdk/sources/declarative/incremental/per_partition_cursor.py over any cursors,
-- partitions and limit; the request options and the state of the router are left out.
--
-- FileSchema follows airbyte_cdk/sources/file_based/schema_helpers.py without the mapping of type names that
-- a user writes. Of a value only its class counts, and of a list the classes of its items.
--
-- HttpClient follows `_send` of airbyte_cdk/sources/streams/http/http_client.py, and HttpClient/Errors
-- http_status_error_handler.py, default_error_mapping.py and response_models.py of error_handlers beside it
-- and composite_error_handler.py of airbyte_cdk/sources/declarative/requesters/error_handlers, with
-- HttpClient/Filters for its default_error_handler.py and response filters. Responses are the record
-- Responses. What session.send raises is a RequestException that `_send` catches or one that escapes it.
-- That a send is repeated is up to the backoff library, so a sequence of sends is any list.
--
-- Mappings follows airbyte_cdk/utils/mapping_helpers.py.
--
-- Not modelled: parsing, templates, sending over HTTP, authentication, databases, embedding, generated
-- models, and the thread pool itself, whose effect is the order of the steps.
pub mod Prelude
pub mod Python
pub mod StateConverter
pub mod ConcurrentCursor
pub mod ReadProcessor
pub mod CallRate
pub mod Pagination
pub mod AsyncJob
pub mod StateManager
pub mod MessageRepository
pub mod Mappings
pub mod CheckpointReader
pub mod Workers
pub mod GlobalCursor
pub mod Stream
pub mod FileCursor
pub mod PerPartition
pub mod FileSchema
pub mod HttpClient
