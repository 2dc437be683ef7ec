-- ===== src/Tests.antt =====
-- A small world to run the code in, and each result's statement at an input in it.
pub mod DnsExport
pub mod AcmePolling
pub mod Startup
pub mod Parser
pub mod Middleware
pub mod World
pub mod Certificates
pub mod Lookups
pub mod SetupLog
pub mod Renewal
pub mod AcmeClient
pub mod MailApi
pub mod Api
pub mod Hub
pub mod Domains
pub mod Challenges
pub mod Mail
pub mod Sessions
pub mod Snippets
