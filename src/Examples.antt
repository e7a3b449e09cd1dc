-- ===== src/Examples.antt =====
-- Runs of the definitions on small inputs, with the data that they share.
mod Lists
mod Server
mod Session
mod Apr
mod Certs
mod Progress
mod Output
mod Start
mod Input
mod Cache
mod Auth
mod Tables
