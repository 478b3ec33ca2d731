-- ===== src/Listings.antt =====
-- Listings and their elements (server/models/listing.ts, server/models/element.ts,
-- server/controllers/listings/), and the ordinals that keep the order of the elements.
mod Ordinals
mod Order
mod Scan
mod Between
mod Difference
mod Placed
mod Positions
mod Successor
mod Room
mod Moves
mod Moved
mod Documents
mod Server
mod Adding
mod Owned
mod Tests
