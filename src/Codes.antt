-- ===== src/Codes.antt =====
-- core/ec/codes.h: the constants of the External Connection protocol, a module for each family.
pub mod Frame
pub mod Flag
pub mod TagType
pub mod Op
pub mod TagName
pub mod FileTag
pub mod SearchScope
pub mod PrefTag
pub mod PrefCategory
pub mod MorePrefTag
pub mod SeeShares
pub mod Detail
pub mod Prio
pub mod Status
