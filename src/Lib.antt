-- ===== src/Lib.antt =====
-- Verification library of the inventaire server (server/): the documents that the server keeps, and
-- the operations on them, as functions, with the theorems that make them correct.
--
-- The parts of the program and the files that model them:
--
-- Base (and Base/*): what the others share. Tests on numbers, `===` as the interface HasEq, the array
--   methods of JavaScript and lodash, and Outcome, the result of code that may throw: `err` holds the
--   message and the status of `newError` (server/lib/error/error.ts), `ok` the value. An await of code
--   that throws is `>>=`.
-- Couch: the document database (server/db/couchdb/base.ts) as a record of operations and laws. The
--   packages behind it are not in the repository, so it is a parameter; Couch/Memory.antt holds an
--   instance in memory, by which the laws can be met and tests can run. A view is computed from
--   `all_docs` by the map function of the design document.
-- Texts, Validation: superTrim of server/lib/utils/base.ts; CouchUuid of server/lib/regex.ts.
-- Items: server/types/item.ts and changeItemDocOwner of server/models/item.ts. Items/Updates holds
--   updateItemDoc with the tests on the new values, Items/Checked the theorems on it. The values that
--   come are taken to have the types that the request's parameters give them; an attribute that is
--   not updatable comes as its name only. The messages on a list of values leave out the list.
-- Transactions: server/models/transaction.ts and server/models/attributes/transaction.ts. Documents
--   and Server hold the update of a transaction as the server makes it
--   (server/controllers/transactions/update_state.ts and lib/transactions.ts, lib/side_effects.ts),
--   on a World of two databases, of transactions and of items. Asking holds the request of an item
--   (request.ts and lib/rights_verification.ts). Updates, Effects, Holding, Lifecycle and Asked hold
--   the proofs.
-- Groups: server/models/group.ts. Requests holds the ten group requests
--   (server/controllers/groups/members_actions.ts and lib/*): the check of membership_validations.ts,
--   the action of groupMembershipActions, and the hook that deletes an empty group. Removal holds
--   removeUserFromGroupDoc. Actions, Completeness, Rights, Survival, Deletion and Seniority hold the
--   proofs, on the roles that findUserGroupMembership reads and the Table of their changes.
-- Relations: server/models/relation.ts and the view by status. Requests holds the five requests
--   (server/controllers/relations/actions.ts and lib/*). Ids, Views, Steps, Keys and Consent hold the
--   proofs; Consent has the histories of requests.
-- Entities: server/models/entity.ts and server/controllers/entities/lib/inv_claims_utils.ts. Edits
--   holds the edits of labels and claims, Merge the merge of two documents; Labels, Claims, Edited, Places,
--   Values, Merged and Survivors hold the proofs.
-- Visibility: server/lib/visibility/filter_visible_docs.ts, allowed_visibility_keys.ts and
--   server/lib/interactions.ts. It uses the members of Groups and the ids of Relations.
-- Access: server/lib/user_access_levels.ts, controller_wrapper.ts and actions_controllers.ts. Levels
--   and Dispatch hold the proofs.
-- HostBans: server/lib/requests_temporary_host_ban.ts. Safety has the bans that requests can lead to,
--   Escalation how they grow.
-- Pagination: server/lib/pagination.ts. Walk has a client that asks for page after page; its bound on
--   the pages is the number of documents, since each page but the last has one at least.
--
-- Listings: server/models/listing.ts, server/models/element.ts. Ordinals is
--   server/lib/find_ordinal.ts, Positions server/lib/utils/lexicographic_ordinal.ts, Documents the
--   documents of listings and their elements, Server the requests on elements
--   (server/controllers/listings/). Order, Scan, Between, Difference, Placed, Successor, Room,
--   Moves and Moved hold the proofs on ordinals, Adding and Owned those on requests. The number of
--   an ordinal in base 36 is exact up to Number.MAX_SAFE_INTEGER; past it the standard leaves the digits to the engine, which is a parameter
--   of the model, Engine, and the theorems on the last ordinal ask for safe integers. A promise
--   that is not awaited is left out of the model, and so is the check of comments for spam.
--
-- Patches: server/models/patch.ts, server/types/patch.ts. Fixes is revertPatch with its changes to the
--   operations, Creation the creation of patches (server/controllers/entities/lib/patches/), the
--   snapshots and restoreVersion. Replay, History, Restoring and References hold the proofs. A path of an
--   operation is the list of its segments.
--
-- Sanitization: server/lib/sanitize/sanitize.ts, from a request to the input of a controller, with
--   the response's warnings: the chain is in Chain. Parameters holds a part of the table of
--   server/lib/sanitize/parameters.ts; the table is a parameter of the rest, so that the theorems
--   hold of the whole one. Names, Identity, Checks, Missing and Bounds hold the proofs. A name of a
--   configuration is taken not to be one of Object.prototype, and the order of the names is that in
--   which they are written. The obfuscation of secrets in the context of an error, which the
--   model's errors do not have, is left out.
--
-- Shelves: server/controllers/shelves/lib/shelves.ts and updateItemsShelves of
--   server/controllers/items/lib/items.ts. Lists holds the membership after lodash's union and
--   difference, Owned the proofs on requests. byIds leaves out the documents that are not there
--   (server/db/couchdb/bundles.ts).
--
-- Properties: server/controllers/entities/lib/properties/, server/types/property.ts, and the
--   validation of a claim (server/controllers/entities/lib/validate_claim_property.ts,
--   validate_claim_sync.ts, validate_and_format_claim_value.ts). Patterns are regular expressions
--   with `test`, by derivatives, without captures; Matching is the relation that the test decides.
--   Ids has the patterns of external ids and the allowed values, Builders the functions that build
--   constraints, Table the constraints of the 127 properties and Subjects the types that have each,
--   both in the order of the source. The functions `format` and `validate` of a property are data,
--   Format and Validation, which Values interprets; Splits has the operations on texts that formats
--   use. Checks and Claims hold the validation, from the rights of the user to the type of the
--   entity at the value, and Updating the update of a claim of a local entity (update_inv_claim.ts)
--   with Entities' edit, before the document is stored and what is inferred for other entities.
--   Where concurrency and the entity's type are checked at once, the first failure in the order of
--   the source is the answer. Admitted, Updated, Covered, Supported, Stable and Loose hold the
--   proofs. The messages of errors leave out lists and the type that is found.
--
-- How the parts interact: the limit that Sanitization bounds is that of a page of Pagination; the
-- patches of an entity are its versions; a transaction update reads and writes transactions and
-- items; a visibility test asks for the friends of Relations and the members of Groups; an entity
-- edit trims by Texts; an element of a listing goes through the tests of Items; the update of a
-- claim puts what Properties accepts into the entity by the edits of Entities.
--
-- Conventions. A handler takes the documents or the databases that it reads, the time `now` for
-- Date.now(), and returns the new state. A record updated is an object whose attributes are
-- assigned. An object used as a dictionary is a list of entries. Loops are structural recursion, so
-- that every function ends. Fuel stands in three places: Pagination.Walk counts its pages; the
-- recursion of findOrdinalBetween has as many rounds as the ordinals have characters, and four,
-- which Listings.Placed shows to be enough; toString has more than the number that it writes.
-- Numbers are natural numbers: times and counts are not negative in the code, and nothing there
-- wraps around; the one place where they can pass the safe integers of a double is the successor of
-- an ordinal. Texts are compared by code points; the ids that the code compares are made of ASCII
-- letters and digits, where this is JavaScript's order.
--
-- Parameters, for what is not in the repository or is a table that the theorems hold for any value
-- of: the comparison and the parsing of JavaScript's values other than natural numbers, the figures
-- of numbers past the safe integers, and camelCase of lodash; the databases; the package jiff; the
-- host that URL of the platform reads; the languages of the package wikidata-lang; the inferences
-- from an ISBN; in the edits and merges of Entities, the constraints of properties that Properties
-- has; what Properties takes as the Platform: URL, Date, toLowerCase, the letters of Unicode, the
-- package isbn3 and isItemId of wikibase-sdk; the Lookups of claims and of entity types, and
-- `normalize` of texts; the table of types by the values of wdt:P31; the durations of bans and the
-- hosts that are never banned; the user's network that Visibility asks for.
--
-- Not modelled: emails, notifications and activities, the ActivityPub federation, images, the
-- connectors to Wikidata and other sources, authentication, feeds and the Elasticsearch indexes,
-- which are I/O; retries on conflict, since a request is one step; and, so far, the documents of
-- shelves, tasks and users.
pub mod Access
pub mod Base
pub mod Couch
pub mod Entities
pub mod Groups
pub mod HostBans
pub mod Items
pub mod Listings
pub mod Pagination
pub mod Patches
pub mod Properties
pub mod Relations
pub mod Sanitization
pub mod Shelves
pub mod Texts
pub mod Transactions
pub mod Validation
pub mod Visibility
