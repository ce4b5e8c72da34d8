-- ===== src/Tests.antt =====
-- Runs of the modelled operations on concrete data, and the theorems at inputs that meet their
-- conditions.
mod Notify
mod Nonces
mod Tickets
mod Queues
mod Directories
mod Deliveries
mod Endpoints
mod Guards
mod Buttons
mod Streams
mod Names
mod Urls
mod Rates
mod Routes
mod Rings
mod Keys
mod Inbox
