-- ===== src/Http/TlsMode.antt =====
-- src/tudou/http/TlsMode.h: how a connection is encrypted.

pub data TlsMode : Type 0 where
  none memory_bio kernel_tls : TlsMode
