-- ===== src/Models.antt =====
-- backend_python/src/models: the rows of the tables, and the database that holds them.
-- An id (a UUID) and an instant (a datetime, in microseconds) are numbers; text is a `String`.
-- A status code, which its foreign key limits to the seeded codes, is a data type.
mod Accounts
mod Sharing
mod Keys
mod Database
mod Admins
pub use Accounts.{AccountStatus, Account}
pub use Sharing.{
  InviteStatus, is_active, SharingGroup, GroupMember, GroupInviteToken, is_group_role,
}
pub use Keys.{ActivationKeyStatus, ActivationKey, ApiKeyStatus, ApiKey, AccountPasswordResetToken}
pub use Admins.{AdminStatus, Admin}
pub use Database.{Db, Redis, State}
mod Observed
pub use Observed.{
  Server, Person, Tribe, Species, StructureClass, Player, ArkStructure, ArkStructureTurret,
  TamedDino, DinoDensity, World,
}
