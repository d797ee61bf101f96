-- ===== src/Lib.antt =====
-- A verification library for the middleware (include/mw, src) and the lidar library (include/lidar,
-- src) of this repository.
--
-- The program takes scans from a lidar, publishes and records them, and answers questions about the
-- recording. Its parts, and the files that model them:
--
--   * Acoustic.antt: the lossy acoustic loopback (src/acoustic_loopback.cpp). `offer`, `advance`,
--     `drain` and `max_frame_bytes` are the functions of these names; `send` is the part of `offer`
--     behind its three refusals, `waiting` and `ready` are the two halves of the stable partition in
--     `advance`, and `run` is any sequence of calls.
--   * Executor/State.antt and Executor/Calls.antt: the executor (src/executor.cpp,
--     include/mw/executor.hpp, include/mw/node.hpp). `add`, `configure_all`, `start_all`, `step`,
--     `stop_all` and the destructor `destroy` are its operations; `not_due`, `timed_tick`, `measure`
--     and `reschedule` are the parts of one round of `step`.
--   * Lidar/Scan.antt and Lidar/Codec.antt: scans and point clouds, and their protobuf messages
--     (src/scan_codec.cpp, src/cloud_codec.cpp); Lidar/Geometry.antt has the angles and points of
--     include/lidar/scan.hpp and include/lidar/point_cloud.hpp.
--   * Lidar/Framing.antt and Lidar/Replies.antt: the framed replies (src/query_wire.cpp).
--   * Lidar/Log: the recording. Recorder.antt is src/recorder.cpp, where `record` is `record_scan`,
--     and Reader.antt is src/reader.cpp; Opening.antt has the constructors of both.
--   * Lidar/Query.antt: the query server's `handle` and the client's `latest`, `range` and `recent`
--     (src/query_server.cpp, src/query_client.cpp).
--   * Transport.antt: publishing, receiving, requests and replies (src/transport.cpp,
--     include/mw/transport.hpp); Requester::request is `request`, Replier is `receive_request`,
--     `reply` and `serve_one`. Transport/Sockets.antt has the constructors, over a context (`IContext`).
--   * Header.antt: message headers (src/message.cpp).
--   * Lidar/Feed.antt: the publishers and subscribers of scans and clouds (src/publisher.cpp,
--     src/subscriber.cpp, src/cloud_publisher.cpp, src/cloud_subscriber.cpp).
--   * Lidar/Sick: the SICK sources (src/sick_scan_source.cpp, src/sick_cloud_source.cpp). Message.antt
--     reads the driver's messages, Scans.antt has `to_scan` and Clouds.antt `to_cloud`; Driver.antt is
--     what the constructor, behind its checks `connect`, and the destructor `disconnect` do with the
--     driver and the registry, Source.antt the class, and Sick.antt itself the queue.
--   * Service.antt: the recording service (apps/scan_publisher_recorder_main.cpp). `iterate` is one
--     round of the loop that `main` is in, by `time_out`, `reconnect` and `handle_scan`; Main.antt is
--     what comes before and behind the loop, and Backoff.antt is `sleep_with_stop_check`. Session.antt is
--     the loop of apps/record_live_scans.cpp.
--   * Programs.antt: the other programs of apps that have behaviour of their own. Heartbeats.antt is
--     mw_pub.cpp and mw_sub.cpp, DumpScans.antt dump_scans.cpp, SampleData.antt
--     record_sample_data.cpp, QueryServer.antt scan_query_server_main.cpp, QueryClient.antt
--     scan_query_client_demo.cpp, Monitor.antt lidar_monitor_main.cpp, ExecutorDemo.antt
--     mw_executor_demo.cpp, AcousticDemo.antt mw_acoustic_demo.cpp; Broadcast.antt has
--     scan_publisher_main.cpp, cloud_publisher_main.cpp and camera_publisher_demo.cpp, and
--     Listening.antt scan_subscriber_main.cpp and cloud_subscriber_main.cpp.
--
-- The parts meet in the queries: a client's request is text that the server parses, the server reads
-- its scans through the index and the log that the recorder wrote, and the reply is framed and parsed
-- again. Lidar/Query/Answers.antt follows a request through all of them. They meet once more in the
-- service, which takes scans from a source, records and publishes them; Service/Ledger.antt is about
-- its recorder and its publisher.
--
-- Code outside the repository is a parameter: the nodes and the measurement clock (`INode`), the
-- random engine of the loopback, ZeroMQ (`IZmq`, with the behaviour of a kind of socket in `IsReq`,
-- `IsQueue`, `IsPub` or `IsSub`), protobuf (`IProtobuf`, whose law is that a message it can carry comes
-- back from its encoding) and SQLite (`IIndex`, whose laws are the key of a new row, that a failed
-- insert changes nothing, and the answers of the three queries when no lock is in the way).
-- Lidar/Samples.antt has an instance of each of the last two. The SICK driver answers the
-- constructor's calls by any function of what happened before (`ISickScanApi`); its messages are
-- records of the fields that the code reads, and floats are any type with four operations (`IFloat`).
-- A read outside a buffer, which C++ leaves undefined, is an error of the model, and so is
-- the overflow of the window's beginning in a RECENT request (`undefined`).
--
-- C++ exceptions are values: a call returns `Result Exception A`, or an `Option Exception` beside the
-- state that it leaves. File streams are modelled with their sticky failure; the disk may take any
-- part of a write. Nanosecond times are unbounded integers, with the 63-bit range as a hypothesis
-- where a theorem needs it; unsigned counters wrap. `std::from_chars` and `std::to_string` are
-- written out in Base, for 64-bit integers. The digits of a number are produced on fuel, one more than
-- the number, which Base/Digits.antt shows to be enough, and the rounds of the service's pause on a
-- millisecond each, which Service/Backoff.antt shows to be enough. The loop of mw_executor_demo.cpp runs
-- on 401 tests, which Programs/ExecutorDemo/Paced.antt shows to be enough. The busy loop of a tick runs
-- on a parameter, and the program has no result if that runs out; Programs/ExecutorDemo/Busy.antt shows
-- that it does not where so many readings of the clock take 4 ms. There is no other fuel: the loops
-- run over lists and counts, and the endless ones of the service over the answers of its environment.
--
-- Not modelled: what programs print beyond the lines that a theorem speaks of, that the driver's
-- threads run at the same time (each operation on a queue or on the registry holds its lock), moving an executor
-- (a moved-from one has no state), memory exhaustion, a new socket that cannot be made while a request
-- recovers (the exception leaves a `noexcept` function, which ends the process), and the programs that
-- only print what the libraries return.
pub mod Acoustic
pub mod Base
pub mod Executor
pub mod Header
pub mod Lidar
pub mod Programs
pub mod Service
pub mod Transport
