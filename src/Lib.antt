-- ===== src/Lib.antt =====
-- A model of the server that turns photographed exam pages into answers, and of the channels that
-- tell the devices of an exam what to do: the state machine of a session, the workflow that
-- processes it, the colours that a device plays as its result, the manual test commands of a device,
-- and the commands of the capturing gateway.
--
-- The parts and their files (paths below src/pages_to_audio/ of the repository's src directory):
--   Prelude, Common  lists, tests and tables that all parts share; Common.Value is JSON as the
--     database keeps it; Common.Exec is a service function, which reads and writes the database and
--     may raise. What it wrote before it raised is part of its outcome; a request or an activity
--     that lets the exception through is rolled back by its caller.
--   Db  the rows of db/models/ with the columns that the modelled code reads or writes. UUIDs and
--     times are numbers; a time is in microseconds. A SELECT is `find?` or `select` on the table, an
--     UPDATE is `update`.
--   Session  domain/state_machine.py and domain/enums/session_state.py (State, Transition),
--     capture/lock.py and `advance_session_state` of workflows/activities/real.py (Transition).
--     Paths and Laws are about the table and about the calls.
--   Workflow  workflows/process_exam.py: Program is code that asks an engine to execute activities,
--     ProcessExam is `run`, Guards, Gated and Driven are about its runs. Activities and Correction are
--     workflows/activities/real.py, with domain/gates.py (Gates) and ai/factory.py (Providers);
--     Performed is the worker, with workflows/activities/rgb.py, as an engine of the workflow, and the
--     modules below it are about it. The engine answers anything, or
--     raises, for each activity; no run executes an activity twice.
--   Rgb.Schemas, Rgb.Policy, Rgb.Canonical, Rgb.Publisher and Rgb.Publish  rgb/schemas.py,
--     rgb/policy.py, rgb/canonical.py and rgb/publisher.py; Answers, Overrides, Packing,
--     Published and Revisions are about them.
--   Rgb.Delivery  rgb/delivery.py: Binding, Result, Snapshot, Events and Sequences are its functions;
--     Cursor and Progress are about the poll and about the events.
--   Rgb.Commands  rgb/device_commands.py: Status, Lookup, Create, Stop, Events and Listing are its
--     functions; Exclusion, Service, Lifecycle and Idempotency are about them.
--   Capture  capture/commands.py: Commands has its functions; Polling, Cursors and Lagging are
--     about the long poll and about the cursors. EndDetection is capture/end_detection.py. Storage is
--     storage/fake_storage.py with the exceptions of common/errors.py. Upload is
--     capture/frame_upload.py: Request (the checks), Rows, Flow (the put, the rows and the derivative
--     of capture/derivatives.py) and Service (`upload_frame`); the modules below them and Keys are
--     about it. Orphans is capture/orphans.py, Outbox is capture/dispatcher.py.
--   Gateway  apps/api/routers/gateway.py (below the repository's root): Binding, EndSignal and
--     Captures are its routes; Walk, Locked, Ends and Counts are about them.
--   Camera  camera_profiles/: Contract and Profiles are contract.py and service.py; Revisions and
--     Takeover are about the revisions.
--   Reconstruction  reconstruction/validators.py (Validators) over domain/models/reconstruction.py
--     (Questions); Ready, Unique and Totals are about the validation.
--   Diagnostics  camera_diagnostics/: Limits, Lifecycle and Frames are its functions; Exclusive, and
--     Counted, Ingest, Pointer, Quota and Retry below Frames, are about them.
--   Idempotency  common/idempotency.py; Replay is about it.
--   Ocr  ocr/policy.py: Breaker and Policy are its functions, Laws and Chain are about them.
--   Llm  llm/fallback_policy.py: Fallback has its functions, Attempts is about its runs.
--   Tests  sample rows, and the theorems applied to them.
--
-- How they meet: a workflow moves its session only through `transition_session`; it marks and
-- publishes its result through the publisher, which writes the one delivery row of the session; the
-- firmware polls that row by its cursor, fetches the sequence and reports its progress as events. The
-- gateway uploads frames to an open session, and its end signal walks the session to `LOCKED` through
-- `transition_session` and stores the start of the workflow in the outbox in the same transaction.
--
-- Bounds: the only loop on fuel is the long poll, with one slice of 250 ms for each unit of fuel;
-- it waits at most 25 s, so 100 slices are enough. The cursors of the gateway are natural numbers;
-- their limit 2^53 - 1 is the code's own test. The fields of a packed item are checked against one
-- byte and four bytes as the struct format does.
--
-- Parameters: readings of the clock, new UUIDs, `str` of a UUID, the digest SHA-256, the size of a
-- JSON text, Python's `int` and `str` on a JSON value, `str.strip`, `str.upper`, pydantic's
-- parsing of a colour, what a slice of the long poll reads back, the image library, outages of the
-- storage and failures of a flush, whether Temporal accepts a start, the floating-point product
-- and quotient of the gates, the decryption of a stored secret, and what an OCR provider returns.
--
-- Not modelled: the other HTTP routes and all authentication, the text patterns that pydantic
-- checks, locks between transactions (a locked SELECT is a read of the table), the clients of OCR,
-- language models, speech synthesis, ffmpeg and object storage, the conversion of a diagnostic
-- clip and the removal of old diagnostics, the Android gateway and the admin interface, which are
-- other programs.
pub mod Prelude
pub mod Common
pub mod Session
pub mod Reconstruction
pub mod Rgb
pub mod Db
pub mod Workflow
pub mod Capture
pub mod Gateway
pub mod Camera
pub mod Diagnostics
pub mod Idempotency
pub mod Ocr
pub mod Llm
pub mod Tests
