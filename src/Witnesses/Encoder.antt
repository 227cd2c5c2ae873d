-- ===== src/Witnesses/Encoder.antt =====
-- A concrete encoder and digest, which stand in for canonical JSON and SHA-256 in examples.
use xgc2_orchestration_core.Base.{String, ok}
use xgc2_orchestration_core.Contracts.Json.{Canonical}

abbrev pub hex : String
hex = "0123456789abcdef0123456789abcdef0123456789abcdef0123456789abcdef"

abbrev pub digest : String
digest = "sha256:0123456789abcdef0123456789abcdef0123456789abcdef0123456789abcdef"

abbrev pub encoder : Canonical
encoder = record { marshal = λ value. ok "[]"; sha256_hex = λ text. hex }
