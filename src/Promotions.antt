-- ===== src/Promotions.antt =====
-- Promotion codes: src/modules/promotions/promotions.service.ts, from the validation of one code to
-- batches and stacks of them.
pub mod Model
pub mod Gates
pub mod BuyGet
pub mod Code
pub mod Batch
pub mod Stack
pub mod Manage
mod Tests
