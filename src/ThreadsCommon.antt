-- ===== src/ThreadsCommon.antt =====
-- src/ThreadsCommon/ThreadsCommon.c: the requests that timers send to cyclic interfaces, and what is
-- recorded of the execution of requests.
pub mod Cyclic
pub mod Requests
