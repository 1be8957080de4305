-- ===== src/Examples.antt =====
-- Tests of the definitions on concrete inputs, and the theorems at such inputs.
mod Buffer
mod Table
mod Texts
mod Bees
mod Tracking
mod Queue
mod Races
mod Contacts
mod Players
mod Additions
mod Programs
mod Messages
mod Servers
mod Polls
mod Donors
mod Files
