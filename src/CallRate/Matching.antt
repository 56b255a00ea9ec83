-- ===== src/CallRate/Matching.antt =====
-- HttpRequestMatcher of airbyte_cdk/sources/streams/call_rate.py. A prepared request is what its
-- parts say; the URL is split by `Url`.
use airbyte_python_cdk.Prelude.{
  ℕ, Bool, true, false, Option, none, some, [], ◌∷◌, String, leb, if◌then◌else◌, ◌&&◌, ◌≡◌, refl,
  all, All, length, text_key, ◌==◌, ◌≤◌, ◌↔◌, arith, ap,
}
use airbyte_python_cdk.Python.Dict
use airbyte_python_cdk.Python.Dict.{Dict}

-- What urllib says about the URL of a request: the part before `?`, and the query's parameters.
pub record Url : Type 0 where
  pub without_params : String
  pub params : Dict String String

-- `headers` looks a header up without regard to case.
pub record PreparedRequest : Type 0 where
  pub method : String
  pub url : Option Url
  pub headers : String → Option String
  pub number_of_headers : ℕ

pub record HttpRequestMatcher : Type 0 where
  pub method : Option String
  pub url : Option String
  pub params : Dict String String
  pub headers : Dict String String

-- `a.get(k) == v`
pub has_item : Option String → String → Bool
has_item none value = false
has_item (some found) value = found == value

-- `pattern.items() <= obj.items()`
pub match_dict : (String → Option String) → ℕ → Dict String String → Bool
match_dict lookup size pattern =
    leb (length pattern) size && all (λ item. has_item (lookup item.0) item.1) pattern

abbrev query_of : Option Url → Dict String String
query_of none = []
query_of (some url) = url.params

-- The tests of `method` and `url`, which are left out where they are None.
abbrev pub method_matches : Option String → String → Bool
method_matches none method = true
method_matches (some expected) method = method == expected

abbrev pub url_matches : Option String → Option Url → Bool
url_matches none url = true
url_matches (some expected) none = true
url_matches (some expected) (some url) = url.without_params == expected

-- `__call__`; an object that is no request is `none`.
pub call : HttpRequestMatcher → Option PreparedRequest → Bool
call matcher none = false
call matcher (some request) =
    if method_matches matcher.method request.method
    then if url_matches matcher.url request.url
      then if match_dict (Dict.get (query_of request.url)) (length (query_of request.url))
          matcher.params
        then match_dict request.headers request.number_of_headers matcher.headers
        else false
      else false
    else false

has_item_iff : (o : Option String) (value : String) → (has_item o value ≡ true) ↔ (o ≡ some value)
unfolding has_item
has_item_iff none value = (λ h. cc, λ h. cc)
has_item_iff (some found) value = (
  λ h. ap some ((text_key.same_iff found value).0 h),
  λ h. (text_key.same_iff found value).1 (ap unwrap h),
)
  where
    unwrap : Option String → String
    unwrap none = value
    unwrap (some x) = x

and_of : (a b : Bool) → ((a && b) ≡ true) ↔ ((a ≡ true) × (b ≡ true))
and_of a b = ground arith

all_items :
    (lookup : String → Option String) (pattern : Dict String String)
    → (all (λ item. has_item (lookup item.0) item.1) pattern ≡ true)
      ↔ All (λ item. lookup item.0 ≡ some item.1) pattern
all_items lookup [] = (λ h. tt, λ h. refl)
all_items lookup (item ∷ pattern) =
    let (split, join) =
      and_of (has_item (lookup item.0) item.1) (all (λ x. has_item (lookup x.0) x.1) pattern) in
    let (found, holds) = has_item_iff (lookup item.0) item.1 in
    let (items, tests) = all_items lookup pattern in
    (λ h. (found (split h).0, items (split h).1), λ h. join (holds h.0, tests h.1))

four_guards :
    (a b c d : Bool)
    → ((if a then if b then if c then d else false else false else false) ≡ true)
      ↔ ((a ≡ true) × (b ≡ true) × (c ≡ true) × (d ≡ true))
four_guards a b c d = ground arith

leb_iff : (a b : ℕ) → (leb a b ≡ true) ↔ (a ≤ b)
leb_iff a b = ground arith

match_dict_iff :
    (lookup : String → Option String) (size : ℕ) (pattern : Dict String String)
    → (match_dict lookup size pattern ≡ true)
      ↔ ((length pattern ≤ size) × All (λ item. lookup item.0 ≡ some item.1) pattern)
unfolding match_dict
match_dict_iff lookup size pattern =
    let (split, join) =
      and_of (leb (length pattern) size) (all (λ x. has_item (lookup x.0) x.1) pattern) in
    let (items, tests) = all_items lookup pattern in
    let (bound, holds) = leb_iff (length pattern) size in
    (λ h. (bound (split h).0, items (split h).1), λ h. join (holds h.0, tests h.1))

-- A matcher accepts a request exactly if its method and URL, where it has them, are the request's,
-- and the request has at least as many parameters and headers as the matcher and every one of the
-- matcher's with its value.
pub call_iff :
    (matcher : HttpRequestMatcher) (request : PreparedRequest)
    → (call matcher (some request) ≡ true) ↔ (
        (method_matches matcher.method request.method ≡ true)
        × (url_matches matcher.url request.url ≡ true)
        × ((length matcher.params ≤ length (query_of request.url))
            × All (λ item. Dict.get (query_of request.url) item.0 ≡ some item.1) matcher.params)
        × ((length matcher.headers ≤ request.number_of_headers)
            × All (λ item. request.headers item.0 ≡ some item.1) matcher.headers))
unfolding call
call_iff matcher request =
    let query = query_of request.url in
    let (split, join) =
      four_guards (method_matches matcher.method request.method)
        (url_matches matcher.url request.url)
        (match_dict (Dict.get query) (length query) matcher.params)
        (match_dict request.headers request.number_of_headers matcher.headers) in
    let (params, params') = match_dict_iff (Dict.get query) (length query) matcher.params in
    let (headers, headers') =
      match_dict_iff request.headers request.number_of_headers matcher.headers in
    (
      λ h. let (m, u, p, q) = split h in (m, u, params p, headers q),
      λ h. join (h.0, h.1, params' h.2, headers' h.3),
    )
