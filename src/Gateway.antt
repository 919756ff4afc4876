-- ===== src/Gateway.antt =====
-- packages/model_gateway: what the rest of the program reads of a model call.
pub mod Observability
