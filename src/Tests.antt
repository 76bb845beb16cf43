-- ===== src/Tests.antt =====
-- Runs of the model at concrete inputs, and applications of the theorems.
mod Checks
mod Codec
mod Numbers
mod Headers
mod Requests
mod Signing
mod RoundTrip
mod Authentic
mod Challenge
mod CommandLine
mod Reads
mod Sequences
