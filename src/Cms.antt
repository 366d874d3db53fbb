-- ===== src/Cms.antt =====
-- src/cms.cpp: the Authenticode CMS around an SpcIndirectDataContent. `Build` assembles it, and
-- `Extract` and `Signers` read it; `platform::sha256` is a parameter.
pub mod Oids
pub mod Fields
pub mod Build
pub mod Extract
pub mod Signers
pub mod Total
pub mod Assembled
pub mod RoundTrip
pub mod Returns
