-- ===== src/Pagination.antt =====
-- airbyte_cdk/sources/declarative/requesters/paginators: the strategies that find the token of the
-- next page, and the paginators that keep it. `Q` is the type of responses, `R` that of records.
pub mod Retriever
pub mod Offset
pub mod Limit
mod Tests
use airbyte_python_cdk.Prelude.{
  ℕ, zero, suc, ◌+◌, Bool, true, false, Option, none, some, String, eqb, ltb, leb, if◌then◌else◌,
  ◌||◌, ◌==◌, text_key, not,
}
use airbyte_python_cdk.Python.Exceptions.{Result, ok, raise, value_error, ◌>>=◌}

-- What points to a page: a page number, an offset or a cursor.
pub data Token : Type 0 where
  number : ℕ → Token
  text : String → Token

-- `self.page_size` is missing or a number.
pub record PageIncrement : Type 0 where
  pub page_size : Option ℕ
  pub start_from_page : ℕ
  pub inject_on_first_request : Bool
  pub page : ℕ

-- The page size is evaluated with the response, or without one.
pub record OffsetIncrement (Q : Type 0) : Type 0 where
  pub page_size : Option (Option Q → ℕ)
  pub inject_on_first_request : Bool
  pub offset : ℕ

-- The interpolated cursor value and stop condition are functions of the response, the size of the
-- page and the last record.
pub record CursorPaginationStrategy (Q R : Type 0) : Type 0 where
  pub cursor_value : Q → ℕ → Option R → Token
  pub stop_condition : Option (Q → ℕ → Option R → Bool)
  pub page_size : Option ℕ
  pub initial_cursor : Option Token

-- The stop condition comes with the truth value of a record, which is false for an empty one.
pub data PaginationStrategy (Q R : Type 0) : Type 0 where
  page_increment : PageIncrement → PaginationStrategy Q R
  offset_increment : OffsetIncrement Q → PaginationStrategy Q R
  cursor_pagination : CursorPaginationStrategy Q R → PaginationStrategy Q R
  with_stop_condition : (R → Bool) → (R → Bool) → PaginationStrategy Q R → PaginationStrategy Q R

abbrev pub truthy_token : Token → Bool
truthy_token (number n) = not (eqb n 0)
truthy_token (text s) = not (s == "")

-- The page is the last: there are fewer records than the page size, or none.
abbrev pub is_last_page : Option ℕ → ℕ → Bool
is_last_page none last_page_size = eqb last_page_size 0
is_last_page (some page_size) last_page_size = ltb last_page_size page_size || eqb last_page_size 0

abbrev optional : {A B : Type 0} → (A → B) → Option A → Option B
optional f none = none
optional f (some x) = some (f x)

-- `last_record and self._stop_condition.is_met(last_record)`
abbrev should_stop : {R : Type 0} → (R → Bool) → (R → Bool) → Option R → Bool
should_stop is_truthy is_met none = false
should_stop is_truthy is_met (some r) = if is_truthy r then is_met r else false

abbrev stops : {Q R : Type 0} → Option (Q → ℕ → Option R → Bool) → Q → ℕ → Option R → Bool
stops none response last_page_size last_record = false
stops (some condition) response last_page_size last_record =
    condition response last_page_size last_record

abbrev keep_truthy : Token → Option Token
keep_truthy t = if truthy_token t then some t else none

abbrev pub truthy_option : Option Token → Option Token
truthy_option none = none
truthy_option (some t) = if truthy_token t then some t else none

-- `reset`: an argument that is left out is `none`, and None is `some none`.
abbrev pub reset_page : PageIncrement → Option (Option Token) → Result PageIncrement
reset_page p (some (some (number n))) = ok (record p { page = n })
reset_page p (some (some (text s))) = raise value_error
reset_page p _ = ok (record p { page = p.start_from_page })

abbrev pub reset_offset :
    {Q : Type 0} → OffsetIncrement Q → Option (Option Token) → Result (OffsetIncrement Q)
reset_offset p none = ok (record p { offset = 0 })
reset_offset p (some (some (number n))) = ok (record p { offset = n })
reset_offset p (some _) = raise value_error

abbrev pub or_none : Option (Option Token) → Option Token
or_none none = none
or_none (some value) = value

module _ {Q R : Type 0} where
  pub initial_token : PaginationStrategy Q R → Option Token
  initial_token (page_increment p) =
      if p.inject_on_first_request then some (number p.page) else none
  initial_token (offset_increment p) =
      if p.inject_on_first_request then some (number p.offset) else none
  initial_token (cursor_pagination p) = p.initial_cursor
  initial_token (with_stop_condition is_truthy is_met delegate) = initial_token delegate

  pub next_page_token :
      PaginationStrategy Q R → Q → ℕ → Option R → Option Token × PaginationStrategy Q R
  next_page_token (page_increment p) response last_page_size last_record =
      if is_last_page p.page_size last_page_size
      then (none, page_increment p)
      else (some (number (p.page + 1)), page_increment (record p { page = p.page + 1 }))
  next_page_token (offset_increment p) response last_page_size last_record =
      if is_last_page (optional (λ size. size (some response)) p.page_size) last_page_size
      then (none, offset_increment p)
      else (
        some (number (p.offset + last_page_size)),
        offset_increment (record p { offset = p.offset + last_page_size }),
      )
  next_page_token (cursor_pagination p) response last_page_size last_record =
      if stops p.stop_condition response last_page_size last_record
      then (none, cursor_pagination p)
      else (keep_truthy (p.cursor_value response last_page_size last_record), cursor_pagination p)
  next_page_token (with_stop_condition is_truthy is_met delegate) response last_page_size
        last_record =
      let (token, delegate') = next_page_token delegate response last_page_size last_record in
      if should_stop is_truthy is_met last_record
      then (none, with_stop_condition is_truthy is_met delegate)
      else (token, with_stop_condition is_truthy is_met delegate')

  pub reset : PaginationStrategy Q R → Option (Option Token) → Result (PaginationStrategy Q R)
  reset (page_increment p) value = do p' ← reset_page p value; ok (page_increment p')
  reset (offset_increment p) value = do p' ← reset_offset p value; ok (offset_increment p')
  reset (cursor_pagination p) value =
      ok (cursor_pagination (record p { initial_cursor = or_none value }))
  reset (with_stop_condition is_truthy is_met delegate) value = do
    delegate' ← reset delegate (some (or_none value))
    ok (with_stop_condition is_truthy is_met delegate')

-- The paginators: NoPagination, DefaultPaginator with its token, and PaginatorTestReadDecorator with
-- its maximum and the pages so far.
pub data Paginator (Q R : Type 0) : Type 0 where
  no_pagination : Paginator Q R
  default_paginator : PaginationStrategy Q R → Option Token → Paginator Q R
  test_read : ℕ → ℕ → Paginator Q R → Paginator Q R

module _ {Q R : Type 0} where
  -- The token that goes into a request.
  pub token_of : Paginator Q R → Option Token
  token_of no_pagination = none
  token_of (default_paginator strategy token) = token
  token_of (test_read maximum count decorated) = token_of decorated

  -- `next_page_token` of a paginator, without its wrapping in a mapping; an empty one is `none`.
  pub next_token : Paginator Q R → Q → ℕ → Option R → Option Token × Paginator Q R
  unfolding next_page_token
  next_token no_pagination response last_page_size last_record = (none, no_pagination)
  next_token (default_paginator strategy token) response last_page_size last_record =
      let (token', strategy') = next_page_token strategy response last_page_size last_record in
      (truthy_option token', default_paginator strategy' token')
  next_token (test_read maximum count decorated) response last_page_size last_record =
      let (token, decorated') = next_token decorated response last_page_size last_record in
      if leb maximum count
      then (none, test_read maximum count decorated)
      else (token, test_read maximum (count + 1) decorated')

  -- `reset` of a paginator, whose argument is None where it is left out.
  pub reset_paginator : Paginator Q R → Option Token → Result (Paginator Q R)
  unfolding reset initial_token
  reset_paginator no_pagination value = ok no_pagination
  reset_paginator (default_paginator strategy token) value = do
    strategy' ← reset strategy (elim (truthy_option value) [ none ↦ none | some t ↦ some (some t) ])
    ok (default_paginator strategy' (initial_token strategy'))
  reset_paginator (test_read maximum count decorated) value = do
    decorated' ← reset_paginator decorated none
    ok (test_read maximum 1 decorated')
