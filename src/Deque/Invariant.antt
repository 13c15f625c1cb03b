-- ===== src/Deque/Invariant.antt =====
-- What links the indices, the slots, the owner and the thieves of the machine at every moment: the
-- invariant, and that the moves of the owner and of the thieves keep it.
mod Defs
mod Owner
mod Bystanders
mod OwnerAccount
mod Thieves
pub use Defs.*
pub use OwnerAccount.{Inv-owner}
pub use Thieves.{Inv-thief}
