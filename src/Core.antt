-- ===== src/Core.antt =====
-- The lobby's core service: runtime/core.
pub mod RoomLimiter
pub mod Cards
pub mod Float
pub mod Chance
pub mod Pity
pub mod User
pub mod GachaPools
pub mod GachaItems
pub mod Gacha
pub mod FaithExchange
pub mod Shop
pub mod ShopProducts
pub mod PremiumShop
pub mod Records
pub mod TicketStore
pub mod TicketDeck
pub mod TicketConsume
pub mod Tickets
pub mod Callback
pub mod StringSet
pub mod BattleMatch
pub mod BattleChecks
pub mod BattleResult
pub mod Checkin
pub mod DraftPool
pub mod DraftMatch
pub mod DraftPicks
pub mod Draft
mod TotemTests
mod EconomyTests
mod DraftTests
mod BattleTests
mod TicketTests
mod PremiumTests
