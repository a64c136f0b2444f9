-- ===== src/Lib.antt =====
-- A model of parts of libnei, a C++ library for tasks, IO and networks.
--
-- WebSocket (src/neixx/net/websocket). A connection reads bytes in pieces of any size, gives them to
-- the frame parser, and acts on each complete frame; frames to be sent are made by the builder.
--   WebSocket/Frame.antt    WebSocketFrame, WebSocketOpcode, ApplyMask.
--   WebSocket/Parser.antt   WebSocketFrameParser: `State` and its fields are the class's; `advance` is
--                           the `switch` of Parse, `parse_loop` its loop, `parse` the method. Below it,
--                           Progress is about termination, Rounds and Chunks about input in pieces,
--                           Consumed about the count that is returned, and Calls about whole calls.
--   WebSocket/Builder.antt  WebSocketFrameBuilder: `build` is Build, with its helpers.
--   WebSocket/RoundTrip.antt  Parse after Build, with Header and Payload for the two parts of a frame.
--   WebSocket/Client.antt   WebSocketClient::Impl in frame mode: `process_frames` is ProcessFrames,
--                           `pump_writes` is PumpWrites, `finish` is Finish, and so on. Delivery and
--                           Stall are about the loop of ProcessFrames, Writes about the write queue.
--
-- Tasks (src/neixx/task/internal). Tasks are posted to a queue from any thread and taken from it by
-- its consumer; the tracker says whether a task may be posted or run during a shutdown.
--   Tasks/Task.antt         Task, TaskTraits and their enums.
--   Tasks/SequencedTaskQueue.antt  SequencedTaskQueue::Impl: `push_immediate_task` is PushImmediateTask,
--                           and so on. What is done under the lock is one step. `std::priority_queue`
--                           is the list of its tasks in the order of `top`. Below it, Takes is about
--                           what a take changes, Fifo about the order of immediate tasks, Delayed about
--                           the heap, Lifecycle the histories of all operations, with Invariant and
--                           Conservation about them, Batch about batches, and Overtake about the
--                           numbers of promoted tasks.
--   Tasks/Tracker.antt      TaskTracker, an atomic operation as one step; Shutdown is about the
--                           interleavings of its steps.
--   Tasks/Delayed.antt      DelayedTaskManager: its calls, and the loop of ThreadMain in the pieces
--                           between which it does not hold the lock. Interleavings has the histories,
--                           Deadlines, Taken, Served and Watching are about the deadlines over all of
--                           them, Earliest is about their order.
--   Tasks/Selector.antt     TaskQueueSelector: `select_next_queue` is SelectNextQueue, and so on. Quotas is
--                           about the 4:2:1 quotas, Stall about the rotation of the masks.
--
-- Buffers (src/neixx/io/io_buffer.cpp).
--   Io/Drainable.antt       DrainableIOBuffer.
--   Io/Pool.antt            IOBufferPool and PooledIOBuffer. Below it, Buckets is about the writes to
--                           a bucket, Ownership about who has a block, Sizes about sizes and limits,
--                           Reuse about what is acquired after a release.
--
-- Strings (src/neixx/strings).
--   Strings/Split.antt      SplitString and JoinString, with JoinSplit below it.
--
-- URLs (src/neixx/url).
--   Url/Encoding.antt       UrlEncode, UrlEncodeQuery and UrlDecode, with RoundTrip below it.
--   Url/Chars.antt          The characters of a URL, and the searches for them.
--   Url/Parser.antt         Url::Impl and its Parse: `parse` is Parse, the other functions its sections,
--                           named for their comments. Places is about the places of the components;
--                           Searches, Authority, Composed, Ports, Whole, Read and Paths are about parsing a
--                           text of a scheme, a host, a port and a path, Cache about Url::origin.
--   Url/Resolve.antt        Url::Resolve and NormalizePathSegments. Segments is about the pieces of a
--                           path, SameOrigin about references that begin with a slash.
--
-- HTTP (src/neixx/net/http).
--   Http/ClientPool.antt    HttpClientPool: `acquire` is Acquire, and so on. Counts is about the map of
--                           idle clients, Conservation about where a client can be after any calls,
--                           Reuse about the client that Acquire gives, Limits about how many are idle.
--   Http/RedirectHandler.antt
--                           `compute_redirect` is ComputeRedirect.
--   Http/Redirects.antt     HttpClient::SendRedirecting: `on_response` is the callback of a hop, `run` the
--                           hop driver. Ends is about the number of hops, Carried about the credentials,
--                           Rewrites about the method and the body, Local about a Location that begins
--                           with a slash.
--   Http/Text.antt          The comparison of texts but for the case of letters, and headers.
--
-- IPC (src/neixx/ipc/message_channel.cpp and rpc_endpoint.cpp).
--   Ipc/Framing.antt        The frames and the read path of MessageChannel::Impl: `try_parse_frames`
--                           is TryParseFrames, `ingest` what OnDataReceived does with a chunk. Words
--                           is about the little-endian words, Delivery about a round of the loop, Loop
--                           about the loop, Chunks about a stream in chunks.
--   Ipc/MessageChannel.antt  The state of Impl and its functions; a function that takes the lock
--                           again goes on at an `IoPoint`. Histories has the interleavings, Errors
--                           is about the error callback, Writes says what a write queue is, which
--                           WriteSteps, Completions, WriteTasks and Carries show of each step and
--                           Drained of all calls, Silence is about a channel that has signalled an error.
--   Ipc/RpcFrame.antt       BuildRpcFrame and ParseRpcFrame (src/neixx/ipc/rpc_endpoint.cpp).
--   Ipc/RpcEndpoint.antt    RpcEndpoint::Impl: `on_message_received` is OnMessageReceived, and so on;
--                           SendRequest is two steps, as another thread may come between them.
--                           Histories has the interleavings, Answered is about the callbacks,
--                           Numbered about their ids, Timers about the timeouts, Delivery about a
--                           request and its reply.
--
-- Utilities of the C library (src/nei/utils).
--   Utils/Base64.antt       nei_base64_encode and nei_base64_decode. Below it, Values is about the
--                           characters, Padding and Groups about the text's parts, RoundTrip about
--                           decoding what was encoded, and Outcomes about errors and capacities.
--
-- A byte is a number below 256, a buffer the list of its bytes, a size a natural number; SIZE_MAX is
-- the argument `size_max`. A time is a count of ticks; a callback, a block of memory and an address
-- are known by numbers. `uint32_t` and `int` keep their wrap-around written out; 64-bit counters of
-- tasks do not wrap. Loops that are not structural run on fuel, and `none` is the fuel that ran out:
-- Parse visits a state once in a call, so `parse` has fuel for five rounds, and that is shown to be
-- enough; a round of ProcessFrames for each message is, and so is a round of SplitString for each code
-- unit and one more. TryParseFrames has fuel for each unread byte and two more, and a round that goes on takes eight bytes or finishes a message.
-- SendRedirecting has fuel for max_redirects + 1 hops; what Send and the resolver give is any function
-- of the hops that are left and of what is asked. A port is written with five digits of fuel, which a
-- 16-bit number needs at most.
--
-- Not modelled: sockets, TLS, the resolver, llhttp, nghttp2, threads and locks, which are the
-- platform's or other libraries'; the WebSocket handshake; the
-- callbacks' bodies, for which the state records the calls.
pub mod Common
pub mod Http
pub mod Io
pub mod Ipc
pub mod Strings
pub mod Tasks
pub mod Url
pub mod Utils
pub mod WebSocket
