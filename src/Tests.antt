-- ===== src/Tests.antt =====
-- Runs of the operations on a small shop, one for each property.
mod Data
mod Orders
mod Creation
mod Listings
mod Sessions
mod Parts
mod Accounts
mod Codec
mod Pages
mod Access
mod Startup
mod Journeys
mod Texts
mod SignUp
mod Followed
