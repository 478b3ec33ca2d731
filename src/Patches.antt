-- ===== src/Patches.antt =====
-- The patches of entities (server/types/patch.ts, server/models/patch.ts and
-- server/controllers/entities/lib/patches/): the history of an entity as the operations between its
-- versions.
mod Fixes
pub mod Creation
mod Replay
mod History
mod Restoring
mod References
mod Tests
use inventaire.Base.{
  ℕ, zero, suc, String, Bool, true, false, Option, none, some, List, [], ◌∷◌, ◌++◌, ◌==◌, string_eq,
  nat_eq, ◌&&◌, nat_beq, if◌then◌else◌, Outcome, ok, ◌≡◌,
}

-- The values of JSON that documents of entities have
mutual
  pub data Json : Type 0 where
    text : String → Json
    number : ℕ → Json
    array : Items → Json
    object : Fields → Json

  pub data Items : Type 0 where
    nil : Items
    cons : Json → Items → Items

  pub data Fields : Type 0 where
    end : Fields
    field : String → Json → Fields → Fields

-- A segment of a path: a key, an index of an array, or the text -1 that stands for an element that is
-- not found. No key is made of digits.
pub data Segment : Type 0 where
  key : String → Segment
  index : ℕ → Segment
  missing : Segment

abbrev pub OperationPath : Type 0
OperationPath = List Segment

-- PatchOperation
pub data PatchOperation : Type 0 where
  add test replace : OperationPath → Json → PatchOperation
  remove : OperationPath → PatchOperation

-- A document of an entity, by its id, its version, and the object of its versioned attributes, which
-- are those that paths name.
pub record VersionedDoc : Type 0 where
  pub id : String
  pub version : ℕ
  pub versioned : Json

-- The id of a patch is `${entityId}:${entityVersion}`; `special` says that it has a context or a batch.
pub record Patch : Type 0 where
  pub entity_id : String
  pub entity_version : ℕ
  pub user : String
  pub timestamp : ℕ
  pub operations : List PatchOperation
  pub special : Bool

-- The package jiff: `patch` may throw, and the difference of two documents leads from one to the
-- other. No operations change nothing.
pub record Jiff : Type 0 where
  pub diff : Json → Json → List PatchOperation
  pub patch : List PatchOperation → Json → Outcome Json
  pub inverse : List PatchOperation → List PatchOperation
  pub patch-nil : (a : Json) → patch [] a ≡ ok a
  pub patch-diff : (a b : Json) → patch (diff a b) a ≡ ok b
