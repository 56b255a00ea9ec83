-- ===== src/Pagination/Limit.antt =====
-- A read of Pagination.Retriever through a PaginatorTestReadDecorator.
use airbyte_python_cdk.Prelude.{
  ℕ, zero, suc, ◌+◌, ◌<◌, ◌≡◌, refl, Option, none, some, List, [], ◌++◌, leb, length, Bool-cases,
  Option-cases, inl, inr, arith,
}
use airbyte_python_cdk.Pagination.{Token, Paginator, test_read, token_of, next_token}
use airbyte_python_cdk.Pagination.Retriever.{Api, last_of, after_page, on_response, read_pages}

module _ {Q R : Type 0} (api : Api Q R) where
  abbrev pub Ends : Option (List R × Paginator Q R) → Type 0
  Ends read = (result : List R × Paginator Q R) × (read ≡ some result)

  one_page_more :
      (token : Option Token) (records : List R) (paginator : Paginator Q R)
      (rest : Option (List R × Paginator Q R))
      → Ends rest
      → Ends (after_page token records paginator rest)
  one_page_more none records paginator rest h = ((records, paginator), refl)
  one_page_more (some t) records paginator rest ((others, s), h) = ((records ++ others, s), rw h)

  read_pages-counted :
      (fuel maximum count : ℕ) (decorated : Paginator Q R) (last_record : Option R)
      → maximum < count + fuel
      → 0 < fuel
      → Ends (read_pages api fuel (test_read maximum count decorated) last_record)
  unfolding read_pages on_response next_token token_of
  read_pages-counted zero maximum count decorated last_record h pos = absurd (omega arith)
  read_pages-counted (suc fuel) maximum count decorated last_record h pos =
      elim (Option-cases (api.fetch (token_of decorated))) [
        | inl missing ↦ (([], test_read maximum count decorated), rw (missing, on_response))
        | inr (response, e) ↦ elim (Bool-cases (leb maximum count)) [
          | inl reached ↦ (
            (api.records_of response, test_read maximum count decorated),
            rw (e, on_response, reached),
          )
          | inr below ↦
              let more : count < maximum = ground (arith, below) in
              let records = api.records_of response in
              let last_record' = last_of last_record records in
              let (token, decorated') =
                next_token decorated response (length records) last_record' in
              rw (e, on_response, below)
                (one_page_more token records (test_read maximum (count + 1) decorated') _ (
                  read_pages-counted fuel maximum (count + 1) decorated' last_record'
                    (omega (arith, h)) (omega (arith, h, more))))
        ]
      ]

  -- A test read of at most `maximum` pages, a positive number, ends after as many pages, whatever
  -- the API answers and whatever paginator it limits.
  pub read_pages-test_read :
      (maximum : ℕ) (decorated : Paginator Q R)
      → 0 < maximum
      → Ends (read_pages api maximum (test_read maximum 1 decorated) none)
  read_pages-test_read maximum decorated pos =
      read_pages-counted maximum maximum 1 decorated none (omega arith) pos
