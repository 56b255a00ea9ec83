-- ===== src/Pagination/Tests.antt =====
-- Reads of an API of three records with pages of two.
use airbyte_python_cdk.Prelude.{
  ℕ, ◌≡◌, refl, true, false, Option, none, some, List, [], ◌∷◌, take, drop, arith,
}
use airbyte_python_cdk.Python.Exceptions.{raise, value_error}
use airbyte_python_cdk.Pagination.{
  Token, number, text, OffsetIncrement, offset_increment, PageIncrement, page_increment,
  with_stop_condition, Paginator, default_paginator, test_read, initial_token, reset_paginator,
}
use airbyte_python_cdk.Pagination.Retriever.{Api, read_pages}
use airbyte_python_cdk.Pagination.Limit.{Ends, read_pages-test_read}
use airbyte_python_cdk.Pagination.Offset.{
  read_pages_complete, reset_paginator-stop_condition, at_offset,
}

abbrev users : List ℕ
users = 3 ∷ 4 ∷ 5 ∷ []

abbrev offset_of : Option Token → ℕ
offset_of none = 0
offset_of (some (number n)) = n
offset_of (some (text s)) = 0

abbrev api : Api (List ℕ) ℕ
api = record {
  fetch = λ token. some (take 2 (drop (offset_of token) users));
  records_of = λ response. response;
}

read_pages_complete_example :
    (paginator : Paginator (List ℕ) ℕ) × (read_pages api 4
        (default_paginator
          (offset_increment (at_offset api users 2 0 false))
          (initial_token {Q = List ℕ} {R = ℕ} (offset_increment (at_offset api users 2 0 false))))
        none
      ≡ some (users, paginator))
unfolding initial_token
read_pages_complete_example =
    read_pages_complete api users 2 false (omega arith) (users_from 0, refl, refl)
      (λ n pos. (users_from n, refl, refl))
  where
    users_from : ℕ → List ℕ
    users_from n = take 2 (drop n users)

abbrev pages : PageIncrement
pages = record { page_size = none; start_from_page = 1; inject_on_first_request = true; page = 1 }

-- The API ignores the page number, so that only the limit ends the read.
read_pages-test_read_example :
    Ends api (read_pages api 2 (test_read 2 1 (default_paginator (page_increment pages) none)) none)
read_pages-test_read_example =
    read_pages-test_read api 2 (default_paginator (page_increment pages) none) (omega arith)

abbrev offsets : OffsetIncrement (List ℕ)
offsets = record { page_size = none; inject_on_first_request = false; offset = 0 }

reset_paginator-stop_condition_example :
    reset_paginator
      (default_paginator
        (with_stop_condition (λ (r : ℕ). true) (λ r. false) (offset_increment offsets))
        none)
      none
    ≡ raise value_error
reset_paginator-stop_condition_example =
    reset_paginator-stop_condition offsets (λ r. true) (λ r. false) none none refl
