-- ===== src/Database/Repository/Pages.antt =====
-- The pages of a query, put together.
use mern_auth.Prelude.{
  ℕ, zero, suc, ◌+◌, ◌*◌, ◌<◌, ◌≤◌, ◌≡◌, refl, sym, ◌∙◌, ap, Option, none, some, List, [], ◌∷◌,
  ◌++◌, length, take, drop, arith,
}
use mern_auth.Exec.{Outcome, returned, raised, ◌>>=◌}
use mern_auth.Database.Repository.{Model, Page, pages_of, map_documents, find_with_pagination, push}

take_nil : {A : Type 0} (n : ℕ) → take {A = A} n [] ≡ []
take_nil zero = refl
take_nil (suc n) = refl

suc_add : (a b : ℕ) → suc (a + b) ≡ suc a + b
suc_add a b = omega arith

take-drop : {A : Type 0} (a b : ℕ) (xs : List A) → take a xs ++ take b (drop a xs) ≡ take (a + b) xs
take-drop zero b xs = ap (λ n. take n xs) (omega arith)
take-drop (suc a) b [] = take_nil b ∙ sym (take_nil (suc a + b))
take-drop (suc a) b (x ∷ xs) =
    ap (λ l. x ∷ l) (take-drop a b xs) ∙ ap (λ n. take n (x ∷ xs)) (suc_add a b)

take-all : {A : Type 0} (n : ℕ) (xs : List A) → length xs ≤ n → take n xs ≡ xs
take-all zero [] h = refl
take-all zero (x ∷ xs) h = ground arith
take-all (suc n) [] h = refl
take-all (suc n) (x ∷ xs) h = ap (λ l. x ∷ l) (take-all n xs (omega (arith, h)))

zero_times : (limit : ℕ) → 0 ≡ 0 * limit
zero_times limit = omega arith

one_more : (n limit : ℕ) → n * limit + limit ≡ suc n * limit
one_more n limit = omega arith

-- Enough pages.
pages_of-enough : (total limit : ℕ) → 0 < limit → total ≤ pages_of total limit * limit
unfolding pages_of
pages_of-enough total limit h = omega (arith, h)

module _ {S D Q U O E : Type 0} (model : Model S D Q U O) (map_document : D → Option E) where
  pushed : (o : Option E) (xs ys : List E) → push o xs ++ ys ≡ push o (xs ++ ys)
  pushed none xs ys = refl
  pushed (some e) xs ys = refl

  map_documents-append :
      (xs ys : List D)
      → map_documents model map_document (xs ++ ys)
        ≡ map_documents model map_document xs ++ map_documents model map_document ys
  unfolding map_documents
  map_documents-append [] ys = refl
  map_documents-append (x ∷ xs) ys =
      ap (push (map_document x)) (map_documents-append xs ys) ∙ sym (pushed (map_document x) _ _)

  abbrev pub items_of : Outcome S (Page E) → List E
  items_of (returned page s) = page.items
  items_of (raised e s) = []

  abbrev pub pages_named : Outcome S (Page E) → ℕ
  pages_named (returned page s) = page.pagination.pages
  pages_named (raised e s) = 0

  -- The items of the first n pages, one after the other.
  abbrev pub read_pages : Q → ℕ → O → S → ℕ → List E
  read_pages query limit order s zero = []
  read_pages query limit order s (suc n) =
      read_pages query limit order s n
      ++ items_of (find_with_pagination model map_document query (suc n) limit order s)

  page_items :
      (query : Q) (order : O) (limit n : ℕ) (s : S) (docs : List D)
      → model.find_sorted query order (some (n * limit)) limit s
        ≡ returned (take limit (drop (n * limit) docs)) s
      → model.count_documents query s ≡ returned (length docs) s
      → items_of (find_with_pagination model map_document query (suc n) limit order s)
        ≡ map_documents model map_document (take limit (drop (n * limit) docs))
  unfolding find_with_pagination
  page_items query order limit n s docs find counted = rw (find, ◌>>=◌, counted)

  pages_read :
      (query : Q) (order : O) (limit : ℕ) (s : S) (docs : List D)
      → ((skip : ℕ)
          → model.find_sorted query order (some skip) limit s
            ≡ returned (take limit (drop skip docs)) s)
      → model.count_documents query s ≡ returned (length docs) s
      → (n : ℕ)
      → read_pages query limit order s n ≡ map_documents model map_document (take (n * limit) docs)
  unfolding map_documents
  pages_read query order limit s docs find counted zero =
      ap (λ k. map_documents model map_document (take k docs)) (zero_times limit)
  pages_read query order limit s docs find counted (suc n) =
      ap (λ l. l ++ items_of (find_with_pagination model map_document query (suc n) limit order s))
        (pages_read query order limit s docs find counted n)
      ∙ ap (λ l. map_documents model map_document (take (n * limit) docs) ++ l)
          (page_items query order limit n s docs (find (n * limit)) counted)
      ∙ sym (map_documents-append (take (n * limit) docs) (take limit (drop (n * limit) docs)))
      ∙ ap (map_documents model map_document) (take-drop (n * limit) limit docs)
      ∙ ap (λ k. map_documents model map_document (take k docs)) (one_more n limit)

  pages_found :
      (query : Q) (order : O) (limit page : ℕ) (s : S) (docs : List D)
      → ((skip : ℕ)
          → model.find_sorted query order (some skip) limit s
            ≡ returned (take limit (drop skip docs)) s)
      → model.count_documents query s ≡ returned (length docs) s
      → pages_named (find_with_pagination model map_document query (suc page) limit order s)
        ≡ pages_of (length docs) limit
  unfolding find_with_pagination
  pages_found query order limit page s docs find counted = rw (find (page * limit), ◌>>=◌, counted)

  -- If the model finds the documents of a query in an order, page by page, and counts them, then,
  -- for a positive limit, the pages from 1 to the number of pages that any of them reports, put
  -- together, are all of the documents that can be mapped, in this order.
  pub read_pages-all :
      (query : Q) (order : O) (limit page : ℕ) (s : S) (docs : List D)
      → 0 < limit
      → ((skip : ℕ)
          → model.find_sorted query order (some skip) limit s
            ≡ returned (take limit (drop skip docs)) s)
      → model.count_documents query s ≡ returned (length docs) s
      → read_pages query limit order s
          (pages_named (find_with_pagination model map_document query (suc page) limit order s))
        ≡ map_documents model map_document docs
  read_pages-all query order limit page s docs positive find counted =
      let n = pages_of (length docs) limit in
      ap (read_pages query limit order s) (pages_found query order limit page s docs find counted)
      ∙ pages_read query order limit s docs find counted n
      ∙ ap (map_documents model map_document)
          (take-all (n * limit) docs (pages_of-enough (length docs) limit positive))
