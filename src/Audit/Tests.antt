-- ===== src/Audit/Tests.antt =====
-- The store's theorems at two requests.
use frostglass.Prelude.{
  ◌≡◌, ◌≢◌, ◌<◌, refl, true, none, some, [], ◌∷◌, Str, ok, All, length, arith, filter, str_eq,
  str_beq, str_leb,
}
use frostglass.Prelude.Sort.{sorted_by, insert_sorted}
use frostglass.Audit.Models.{RequestRecord}
use frostglass.Audit.Store.{
  AuditStore, listing, list_requests, matches, is_scoped, newest, is_below, position, str_ltb,
  is_after, page_of, with_cursor, last?,
}
use frostglass.Audit.Store.Paging.{DistinctIds, read_pages, read_pages-listing}
use frostglass.Audit.Store.Scope.{IsInScope, list_requests-IsInScope}

abbrev request_at : Str → Str → RequestRecord
request_at id ts = record {
  id = id;
  tenant_id = 1 ∷ [];
  team = 2 ∷ [];
  user = [];
  ts = ts;
  model = [];
  provider = [];
  action = 3 ∷ [];
  policy_version = 1;
  shadow = true;
  blocked_reason = none;
  prompt_tokens = none;
  completion_tokens = none;
  cost_cents = none;
  latency_ms = none;
  provider_latency_ms = none;
  status_code = some 200;
  fallback_used = none;
  trace = [];
}

abbrev two_requests : AuditStore
two_requests = record {
  requests = request_at (10 ∷ []) (50 ∷ []) ∷ request_at (11 ∷ []) (50 ∷ []) ∷ [];
  findings = [];
  captured = [];
  drawn = 0;
}

abbrev two_ids : Str × Str
two_ids = (10 ∷ [], 11 ∷ [])

two_requests-DistinctIds : DistinctIds two_requests.requests
two_requests-DistinctIds = ((λ e. absurd (ten_eleven e), tt), (tt, tt))
  where
    ten_eleven : two_ids.0 ≢ two_ids.1
    ten_eleven e = cc

two_requests-length : length (listing two_requests (1 ∷ []) none none) < 3
unfolding listing filter is_scoped matches sorted_by insert_sorted newest is_below position str_ltb
    str_leb str_beq
two_requests-length = omega arith

read_pages-listing_example :
    read_pages 3 two_requests (1 ∷ []) none none 1 none
    ≡ ok (listing two_requests (1 ∷ []) none none)
read_pages-listing_example =
    read_pages-listing two_requests (1 ∷ []) none none 0 3 two_requests-DistinctIds
      two_requests-length

first_page :
    list_requests two_requests (1 ∷ []) none none 1 none
    ≡ ok (request_at (11 ∷ []) (50 ∷ []) ∷ [], some (50 ∷ [], 11 ∷ []))
unfolding list_requests listing filter is_scoped matches sorted_by insert_sorted newest is_below
    position str_ltb str_leb str_beq is_after page_of with_cursor last?
first_page = refl

list_requests-IsInScope_example :
    All (IsInScope (1 ∷ []) none none) (request_at (11 ∷ []) (50 ∷ []) ∷ [])
list_requests-IsInScope_example =
    list_requests-IsInScope two_requests (1 ∷ []) none none 1 none
      (request_at (11 ∷ []) (50 ∷ []) ∷ []) (some (50 ∷ [], 11 ∷ [])) first_page
