-- ===== src/Outcomes/Record.antt =====
-- src/lab_commons/outcomes/record.py: the append-only record. Event lines and their schema upgrades
-- are in Record/Event.antt, the record itself with its views in Record/Log.antt.
pub mod Event
pub mod EventLaws
pub mod Jsonl
pub mod Lines
pub mod EventRoundTrip
pub mod Log
pub mod Views
pub mod Append
pub mod Finality
pub mod Attempts
pub mod Repeats
pub mod Durable
pub mod SortedLine
pub mod SortedEvent
pub mod Reopen
