-- ===== src/Pagination/Retriever.antt =====
-- `_read_pages` of airbyte_cdk/sources/declarative/retrievers/simple_retriever.py: the loop over the
-- pages. What the API answers to the token of a request, and the records of an answer, are functions.
use airbyte_python_cdk.Prelude.{ℕ, zero, suc, Option, none, some, List, [], ◌∷◌, ◌++◌, length}
use airbyte_python_cdk.Pagination.{Token, Paginator, token_of, next_token}

-- No answer is one that is ignored; `records_of` is what the record selector makes of an answer.
pub record Api (Q R : Type 0) : Type 0 where
  pub fetch : Option Token → Option Q
  pub records_of : Q → List R

-- `_last_record` stays where a page has no records.
pub last_of : {R : Type 0} → Option R → List R → Option R
last_of last [] = last
last_of last (r ∷ records) = last_of (some r) records

abbrev pub prepend : {R S : Type 0} → List R → Option (List R × S) → Option (List R × S)
prepend records none = none
prepend records (some (others, s)) = some (records ++ others, s)

-- A page without a token for the next one ends the loop.
abbrev pub after_page :
    {R S : Type 0} → Option Token → List R → S → Option (List R × S) → Option (List R × S)
after_page none records s rest = some (records, s)
after_page (some t) records s rest = prepend records rest

module _ {Q R : Type 0} (api : Api Q R) where
  -- One round of the loop, with the rounds after it.
  unfoldable pub on_response :
      Option Q
      → Paginator Q R
      → Option R
      → (Paginator Q R → Option R → Option (List R × Paginator Q R))
      → Option (List R × Paginator Q R)
  on_response none paginator last_record rounds = some ([], paginator)
  on_response (some response) paginator last_record rounds =
      let records = api.records_of response in
      let last_record' = last_of last_record records in
      let (token, paginator') = next_token paginator response (length records) last_record' in
      after_page token records paginator' (rounds paginator' last_record')

  -- The records that are read, and the paginator afterwards; `none` runs out of fuel.
  unfoldable pub read_pages : ℕ → Paginator Q R → Option R → Option (List R × Paginator Q R)
  read_pages zero paginator last_record = none
  read_pages (suc fuel) paginator last_record =
      on_response (api.fetch (token_of paginator)) paginator last_record (read_pages fuel)
