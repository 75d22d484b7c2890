-- ===== src/Tests.antt =====
-- The properties' witnesses on concrete data, by the part of the program that they are about.
mod Sample
mod Store
mod Objects
mod Feeds
mod Network
mod Program
mod Connector
mod Whole
mod Start
mod Rounds
mod Wire
mod Clients
mod Threads
mod Sentences
mod Course
mod Signals
mod Mixed
