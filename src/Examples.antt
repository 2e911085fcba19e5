-- ===== src/Examples.antt =====
-- The theorems at concrete inputs, and tests of the definitions.
mod Data
mod Scrape
mod Artifacts
mod Store
mod Loop
mod Scan
mod Txid
mod Pinning
mod Ipns
mod Audit
mod Chain
