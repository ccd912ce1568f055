-- ===== src/Utils.antt =====
-- utils/: what the tasks use to send transactions and to sign.
pub mod Transactor
pub mod Kms
pub mod Filter
pub mod Arguments
pub mod Sign
pub mod Invoke
