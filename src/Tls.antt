-- ===== src/Tls.antt =====
-- DeepSeerLib/src/Tls/CertCache.cpp.
pub mod CertCache
pub mod CertGenerator
