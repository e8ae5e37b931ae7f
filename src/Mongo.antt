-- ===== src/Mongo.antt =====
-- The document database that the services call through Mongoose, as far as they use it. It is no
-- code of the repository: a collection is abstract, `docs` is the list of its documents, and each
-- law states what the documentation of an operation says of that list.
mod Sample
pub use Sample.{list_mongo}
pub mod Laws
pub use Laws.{
  Mongo, modify_first, not_test, mongo_laws, docs-update_many, docs-save, docs-create,
  docs-delete_many, find_lem, find_one_lem, count_documents_lem, count-find_sorted, docs-upsert,
  docs-update_one,
}
