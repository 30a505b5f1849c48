-- ===== src/Lib.antt =====
-- The realtime gateway of the Nemotron voice agent, the part of the server that speaks the OpenAI
-- Realtime protocol with a client over a websocket and drives a pipecat pipeline with it, and the
-- session stores of the media that its agents look at. This library models their state and their
-- handlers as functions and proves what they promise each other; of the example agents it has the
-- controllers of the webcam, of its gestures and of deliberate thinking, the filter of silent
-- replies, the guard against repeats, the streamer of a JSON field and the booking database.
--
-- A client message is read by the serializer (src/realtime/serializer.py), which answers it with events
-- and hands at most one frame to the pipeline. The pipeline's frames are seen by the observer
-- (src/realtime/observer.py), which turns them into events. Both share one conversation state
-- (src/realtime/conversation.py) and the functions that open and close a response
-- (src/realtime/lifecycle.py); what is sent goes through src/realtime/events.py. The session view of a
-- client is merged and checked by src/realtime/session.py and src/realtime/audio.py. The stores of
-- attachments and webcam frames are shared by the HTTP routes and the agents of a session.
--
-- Files:
--   Base            Boolean tests, lists, texts (lists of code points) and dictionaries.
--   Json            values of `json.loads`, dictionaries with their order; a float is its bit pattern.
--   Realtime/Conversation   conversation.py: ConversationState, one function per method. A method
--                   takes the uuids that it draws and returns the new state and its result.
--                   Invariant has the calls as a data type and runs of them; Turns and Responses
--                   have the theorems on user turns and on the response slot.
--   Realtime/Events events.py: an event type is a constructor, a payload has its GA or its older name.
--   Realtime/World  `emit`: sending appends to the list of what was sent. It is where a task awaits,
--                   so a schedule gives for every await the calls that other tasks make meanwhile.
--                   The lock around the sending is left out, so more orders are schedules than
--                   the program has; no result rests on one that it does not have.
--   Realtime/Lifecycle      lifecycle.py: announce_response and finish_response.
--   Realtime/Observer       observer.py: on_push_frame, _handle_frame and their helpers; Dedupe has
--                   the frame ids that were seen.
--   Realtime/Audio  audio.py: rates and formats. A validator returns `true` where the source returns
--                   and `false` where it raises.
--   Realtime/Session        session.py: merge_session_patch, live_session_patch,
--                   unsupported_live_session_fields and validators.
--   Realtime/Serializer     serializer.py: deserialize and its handlers, and the output audio. State
--                   has the record and the libraries that are called: base64, the stream resamplers,
--                   the voice catalog and the catalog keys are parameters.
--   Realtime/Transport      transport.py: the filter that gives a client one name of an event.
--   Attachments     src/attachment_store.py: uploads, captures and capture requests of a session.
--   Webcam          src/webcam_frame_store.py: the ring of a session's last frames.
--   Gestures        src/examples/omni_assistant_subagents/subagents/transport/
--                   proactive_gesture_controller.py: the gates of webcam gestures.
--   Thinking        src/examples/omni_assistant_subagents/subagents/transport/thinking_controller.py:
--                   the controller, with its coroutines cut at their awaits, as a run of events.
--   Airline         src/examples/frontend_backend_agent/airline/database/api.py: the booking database.
--                   Tables has the tables of schema.sql, Schedule the flights of a route, Lookup the
--                   reads, Changes, Bookings and Creation the calls that change it, EditDistance the
--                   distance of two codes. The datetime classes of Python are a parameter.
--   JsonStream      src/examples/shared/json_stream.py: JsonStringFieldStreamer. The loop of
--                   _advance_to_string is on fuel, two more than the buffer has characters: a round
--                   that goes on has consumed one, but for the first of a call.
--   SilentReply     src/examples/generic/silent_reply.py: SilentReplyFilter, frame by frame.
--   WebcamControl   src/examples/omni_assistant_subagents/subagents/transport/webcam_controller.py and
--                   set_findings of subagent_state_board.py beside it: the controller as a run of
--                   events over the store of Webcam, with the loop cut at the await of its request.
--   RepeatGuard     src/examples/omni_assistant_subagents/subagents/speaker/repeat_guard.py: RepeatGuard
--                   and normalize_text, with str.lower and its final sigma over a parameter for the
--                   Unicode tables of Python.
-- The modules named Tests have runs at concrete inputs.
--
-- Every other function is by structural recursion. Python integers are natural numbers, with
-- negative ones apart in Json. `str.lower` is that of the
-- ASCII letters but in RepeatGuard. Not modelled: logging, exceptions that are caught and logged, the metric
-- frames and their totals (the telemetry of a response is an argument), `event_id` of the events sent
-- and the constant parts of a payload, the order of two uuids that one call draws but does not use.
-- Outside the library are the HTTP server, the websocket handling of the gateway, the rest of
-- src/examples, the services that they call and the benchmarks.
pub mod Base
pub mod Json
pub mod Realtime
pub mod Attachments
pub mod Webcam
pub mod Gestures
pub mod Thinking
pub mod Airline
pub mod JsonStream
pub mod SilentReply
pub mod WebcamControl
pub mod RepeatGuard
