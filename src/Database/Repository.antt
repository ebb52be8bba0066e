-- ===== src/Database/Repository.antt =====
-- BaseRepository, packages/database/src/repositories/base.repository.ts, over a mongoose model that
-- is a parameter; tracing is left out.
pub mod Pages
use mern_auth.Prelude.{
  ℕ, zero, suc, ◌+◌, ◌-◌, ◌*◌, ◌/◌, String, Bool, true, false, ◌==◌, Option, none, some, List, [],
  ◌∷◌, if◌then◌else◌,
}
use mern_auth.Errors.{plain}
use mern_auth.Exec.{Exec, pure, throw, ◌>>=◌}

pub record FindOptions (O : Type 0) : Type 0 where
  pub sort : Option O
  pub skip : Option ℕ
  pub limit : Option ℕ

-- The calls of the model: documents D, filters Q, updates U and sort orders O. A negative number to
-- skip is none.
pub record Model (S D Q U O : Type 0) : Type 0 where
  pub save : U → Exec S D
  pub find_by_id : String → Exec S (Option D)
  pub find_one : Q → Exec S (Option D)
  pub find : Q → FindOptions O → Exec S (List D)
  pub find_sorted : Q → O → Option ℕ → ℕ → Exec S (List D)
  pub count_documents : Q → Exec S ℕ
  pub find_by_id_and_update : String → U → Exec S (Option D)
  pub find_by_id_and_delete : String → Exec S (Option D)

pub record Pagination : Type 0 where
  pub total : ℕ
  pub page : ℕ
  pub limit : ℕ
  pub pages : ℕ

pub record Page (E : Type 0) : Type 0 where
  pub items : List E
  pub pagination : Pagination

-- (page - 1) * limit
unfoldable pub skip_of : ℕ → ℕ → Option ℕ
skip_of zero limit = if limit == 0 then some 0 else none
skip_of (suc before) limit = some (before * limit)

-- Math.ceil(total / limit), for a positive limit
unfoldable pub pages_of : ℕ → ℕ → ℕ
pages_of total limit = (total + limit - 1) / limit

abbrev pub push : {E : Type 0} → Option E → List E → List E
push none entities = entities
push (some entity) entities = entity ∷ entities

module _ {S D Q U O E : Type 0} (model : Model S D Q U O) (map_document : D → Option E) where
  -- docs.map(mapDocument).filter(d => d !== null)
  unfoldable pub map_documents : List D → List E
  map_documents [] = []
  map_documents (doc ∷ docs) = push (map_document doc) (map_documents docs)

  abbrev pub map_found : Option D → Option E
  map_found none = none
  map_found (some doc) = map_document doc

  abbrev pub created : Option E → Exec S E
  created none = throw (plain "Failed to map created document")
  created (some entity) = pure entity

  unfoldable pub create : U → Exec S E
  create fields = model.save fields >>= λ doc. created (map_document doc)

  unfoldable pub find_by_id : String → Exec S (Option E)
  find_by_id id = model.find_by_id id >>= λ doc. pure (map_found doc)

  unfoldable pub find_one : Q → Exec S (Option E)
  find_one filter = model.find_one filter >>= λ doc. pure (map_found doc)

  unfoldable pub find : Q → FindOptions O → Exec S (List E)
  unfolding map_documents
  find filter options = model.find filter options >>= λ docs. pure (map_documents docs)

  unfoldable pub find_with_pagination : Q → ℕ → ℕ → O → Exec S (Page E)
  unfolding skip_of pages_of map_documents
  find_with_pagination query page limit order = do
    docs ← model.find_sorted query order (skip_of page limit) limit
    total ← model.count_documents query
    pure (record {
      items = map_documents docs;
      pagination = record {
        total = total;
        page = page;
        limit = limit;
        pages = pages_of total limit;
      };
    })

  unfoldable pub update : String → U → Exec S (Option E)
  update id updates = model.find_by_id_and_update id updates >>= λ doc. pure (map_found doc)

  unfoldable pub update_by_id : String → U → Exec S (Option E)
  update_by_id id fields = model.find_by_id_and_update id fields >>= λ doc. pure (map_found doc)

  unfoldable pub delete : String → Exec S (Option E)
  delete id = model.find_by_id_and_delete id >>= λ doc. pure (map_found doc)

  abbrev is_some : Option D → Bool
  is_some none = false
  is_some (some doc) = true

  unfoldable pub delete_by_id : String → Exec S Bool
  delete_by_id id = model.find_by_id_and_delete id >>= λ doc. pure (is_some doc)

  unfoldable pub count : Q → Exec S ℕ
  count filter = model.count_documents filter
