-- ===== src/Pagination/Offset.antt =====
-- Reading all pages with OffsetIncrement, and resetting it.
use airbyte_python_cdk.Prelude.{
  ℕ, zero, suc, ◌+◌, ◌≤◌, ◌<◌, ◌≡◌, sym, ap, ◌∙◌, Bool, true, false, Option, none, some, List, ◌++◌,
  eqb, length, Bool-cases, inl, inr, arith, take, drop, take-append-drop, drop-drop, length-take,
  take-all, length-append,
}
use airbyte_python_cdk.Python.Exceptions.{raise, value_error}
use airbyte_python_cdk.Pagination.{
  Token, number, OffsetIncrement, offset_increment, with_stop_condition, Paginator,
  default_paginator, token_of, next_token, next_page_token, is_last_page, truthy_option, reset,
  reset_paginator, initial_token,
}
use airbyte_python_cdk.Pagination.Retriever.{Api, last_of, on_response, read_pages}

module _ {Q R : Type 0} (api : Api Q R) (data_of_api : List R) (size : ℕ) where
  -- The API answers an offset, 0 where there is none, with the records from there, up to `size`.
  abbrev pub IsServedAt : Option Token → ℕ → Type 0
  IsServedAt token offset =
      (response : Q) × (api.fetch token ≡ some response)
      × (api.records_of response ≡ take size (drop offset data_of_api))

  abbrev pub at_offset : ℕ → Bool → OffsetIncrement Q
  at_offset offset inject = record {
    page_size = some (λ response. size);
    inject_on_first_request = inject;
    offset = offset;
  }

  short_page : (page : ℕ) → 0 < size → is_last_page (some size) page ≡ true → page < size
  short_page page pos h = ground arith

  full_page : (page : ℕ) → page ≤ size → is_last_page (some size) page ≡ false → page ≡ size
  full_page page bound h = ground arith

  -- The loop at an offset reads what is left from there.
  read_pages-from :
      (fuel offset : ℕ) (inject : Bool) (token : Option Token) (last_record : Option R)
      → 0 < size
      → IsServedAt token offset
      → ((n : ℕ) → 0 < n → IsServedAt (some (number n)) n)
      → length (drop offset data_of_api) < fuel
      → (paginator : Paginator Q R) × (read_pages api fuel
            (default_paginator (offset_increment (at_offset offset inject)) token)
            last_record
          ≡ some (drop offset data_of_api, paginator))
  unfolding read_pages on_response next_token token_of next_page_token
  read_pages-from zero offset inject token last_record pos here there fuel_left =
      absurd (omega arith)
  read_pages-from (suc fuel) offset inject token last_record pos (response, e, served) there
        fuel_left =
      let left = drop offset data_of_api in
      let records = api.records_of response in
      let page = length records in
      let bound : page ≤ size = rw served (length-take size left) in
      elim (Bool-cases (is_last_page (some size) page)) [
        | inl last ↦
            let short : length (take size left) < size = rw (← served) (short_page page pos last) in
            let whole : records ≡ left = served ∙ take-all size left short in
            let p = default_paginator (offset_increment (at_offset offset inject)) none in
            (p, rw (e, on_response, last) (ap (λ l. some (l, p)) whole))
        | inr more ↦
            let full : page ≡ size = full_page page bound more in
            let next : drop (offset + page) data_of_api ≡ drop size left =
              rw full (sym (drop-drop offset size data_of_api)) in
            let joined : records ++ drop (offset + page) data_of_api ≡ left =
              rw (next, served) (take-append-drop size left) in
            let measured : length left ≡ page + length (drop (offset + page) data_of_api) =
              ap length (sym joined) ∙ length-append records (drop (offset + page) data_of_api) in
            let truthy : eqb (offset + page) 0 ≡ false = ground (arith, full, pos) in
            let (p, rest) =
              read_pages-from fuel (offset + page) inject (some (number (offset + page)))
                (last_of last_record records) pos (there (offset + page) (omega (arith, full, pos)))
                there (omega (arith, measured, fuel_left, full, pos)) in
            (p, rw (e, on_response, more, truthy, rest) (ap (λ l. some (l, p)) joined))
      ]

  -- From an API that answers each offset with the records from there, up to the page size, the loop
  -- with OffsetIncrement reads all records in order and each once, and ends after at most one round
  -- more than there are records; the first request has the offset 0 or none.
  pub read_pages_complete :
      (inject : Bool)
      → 0 < size
      → IsServedAt (initial_token {Q = Q} {R = R} (offset_increment (at_offset 0 inject))) 0
      → ((n : ℕ) → 0 < n → IsServedAt (some (number n)) n)
      → (paginator : Paginator Q R) × (read_pages api
            (suc (length data_of_api))
            (default_paginator
              (offset_increment (at_offset 0 inject))
              (initial_token {Q = Q} {R = R} (offset_increment (at_offset 0 inject))))
            none
          ≡ some (data_of_api, paginator))
  unfolding drop
  read_pages_complete inject pos here there =
      read_pages-from (suc (length data_of_api)) 0 inject _ none pos here there (omega arith)

module _ {Q R : Type 0} where
  -- Resetting a paginator to its start raises a ValueError if its strategy is OffsetIncrement under
  -- a stop condition: the decorator hands the missing argument on as None.
  pub reset_paginator-stop_condition :
      (p : OffsetIncrement Q) (is_truthy is_met : R → Bool) (token value : Option Token)
      → truthy_option value ≡ none
      → reset_paginator
          (default_paginator (with_stop_condition is_truthy is_met (offset_increment p)) token)
          value
        ≡ raise value_error
  unfolding reset_paginator reset
  reset_paginator-stop_condition p is_truthy is_met token value h = rw h
