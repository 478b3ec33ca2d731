-- ===== src/Couch.antt =====
-- The document database (server/db/couchdb/base.ts), which is CouchDB behind the package blue-cot.
-- Neither is in this repository: a database is a parameter of what uses it, with the laws below.
mod Memory
use inventaire.Base.{
  String, ◌≡◌, Option, some, List, Bool, true, any, ◌==◌, string_eq, if◌then◌else◌,
}
unfoldable pub use Memory.{memory_lookup, memory_put, memory_docs}
pub use Memory.{memory_lookup-put, memory_any-get, memory_get-any}

-- `get` is db.get (`none` is its 404), `put` is db.put, db.postAndReturn of a document that has an
-- _id, and the write of db.update; `all_docs` are the documents that a view is computed from.
pub record Database (Doc : Type 0) : Type 1 where
  pub Store : Type 0
  pub get : Store → String → Option Doc
  pub put : Store → String → Doc → Store
  pub all_docs : Store → List Doc
  pub get-put :
      (s : Store) (id j : String) (d : Doc)
      → get (put s id d) j ≡ (if id == j then some d else get s j)
  pub any-get :
      (p : Doc → Bool) (s : Store) (id : String) (d : Doc)
      → get s id ≡ some d
      → p d ≡ true
      → any p (all_docs s) ≡ true
  pub get-any :
      (p : Doc → Bool) (s : Store)
      → any p (all_docs s) ≡ true
      → (id : String) × (d : Doc) × (get s id ≡ some d) × (p d ≡ true)

-- A database held in memory: the laws can be met, and tests can run.
abbrev pub memory : {Doc : Type 0} → Database Doc
memory {Doc} = record {
  Store = List (String × Doc);
  get = memory_lookup;
  put = memory_put;
  all_docs = λ m. memory_docs m m;
  get-put = memory_lookup-put;
  any-get = λ p m id d h k. memory_any-get p m m id d d h h k;
  get-any = λ p m h. memory_get-any p m m h;
}
