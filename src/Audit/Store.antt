-- ===== src/Audit/Store.antt =====
-- frostglass/audit/store.py: the tables, what records a request, and the scoped reads. A table is the list
-- of its rows; a row of `requests` is the record without its trace. SQLite's refusal of a primary key that
-- is there is `integrity_error`. `uuid4` gives new identifiers, so those of findings do not clash.
pub mod Order
pub mod Paging
pub mod Scope
use frostglass.Prelude.{
  ℕ, suc, ◌+◌, ◌≡◌, Bool, true, false, ◌&&◌, ◌||◌, not, Option, none, some, List, [], ◌∷◌, ◌++◌,
  map, Str, str, str_eq, str_leb, ◌==◌, ok, err, any, filter, take, length, ltb, head?,
  if◌then◌else◌, max, leb, nat_eq,
}
use frostglass.Prelude.Sort.{sorted_by}
use frostglass.Errors.{Py, integrity_error, index_error}
use frostglass.Audit.Models.{DecisionTraceEntry, RequestRecord}

pub record FindingRow : Type 0 where
  pub id : Str
  pub request_id : Str
  pub entry : DecisionTraceEntry
  pub false_positive_reported : Bool

pub record CapturedContent : Type 0 where
  pub request_id : Str
  pub masked_payload_encrypted : List ℕ
  pub expires_at : Str

pub record AuditStore : Type 0 where
  pub requests : List RequestRecord
  pub findings : List FindingRow
  pub captured : List CapturedContent
  pub drawn : ℕ

-- The rows that `record_request` inserts into `findings`, with the identifiers that are drawn
unfoldable pub finding_rows : (ℕ → Str) → Str → ℕ → List DecisionTraceEntry → List FindingRow
finding_rows uuid4_hex request_id n [] = []
finding_rows uuid4_hex request_id n (entry ∷ entries) =
    record {
      id = uuid4_hex n;
      request_id = request_id;
      entry = entry;
      false_positive_reported = false;
    }
    ∷ finding_rows uuid4_hex request_id (suc n) entries

-- The row that it inserts into `captured_content`, if any
unfoldable pub capture_rows : Str → Option (List ℕ × Str) → List CapturedContent
capture_rows request_id none = []
capture_rows request_id (some (blob, expires_at)) =
    record { request_id = request_id; masked_payload_encrypted = blob; expires_at = expires_at }
    ∷ []

-- `record_request`
unfoldable pub record_request :
    (ℕ → Str) → AuditStore → RequestRecord → Option (List ℕ × Str) → Py (Unit {0}) × AuditStore
unfolding finding_rows capture_rows any
record_request uuid4_hex s r sealed_capture =
    if any (λ q. q.id == r.id) s.requests then (err integrity_error, s) else (
      ok tt,
      record s {
        requests = s.requests ++ r ∷ [];
        findings = s.findings ++ finding_rows uuid4_hex r.id s.drawn r.trace;
        captured = s.captured ++ capture_rows r.id sealed_capture;
        drawn = s.drawn + length r.trace;
      },
    )

-- `team = ?`, if there is one; `action = ?` alike
unfoldable pub matches : Option Str → Str → Bool
matches none value = true
matches (some wanted) value = value == wanted

unfoldable pub is_scoped : Str → Option Str → RequestRecord → Bool
unfolding matches
is_scoped tenant_id team r = r.tenant_id == tenant_id && matches team r.team

-- `get_request`
unfoldable pub get_request : AuditStore → Str → Str → Option Str → Option RequestRecord
unfolding is_scoped filter
get_request s tenant_id request_id team =
    head? (filter (λ r. is_scoped tenant_id team r && r.id == request_id) s.requests)

-- `<` of two texts
unfoldable pub str_ltb : Str → Str → Bool
str_ltb a b = not (str_leb b a)

-- The position of a row in the order, (ts, id)
unfoldable pub position : RequestRecord → Str × Str
position r = (r.ts, r.id)

-- `ts < ? OR (ts = ? AND id < ?)`
unfoldable pub is_below : Str × Str → Str × Str → Bool
unfolding str_ltb
is_below c p = str_ltb p.0 c.0 || (p.0 == c.0 && str_ltb p.1 c.1)

-- The order `ts DESC, id DESC`: the first row may stand before the second.
unfoldable pub newest : RequestRecord → RequestRecord → Bool
unfolding is_below position
newest x y = not (is_below (position y) (position x))

-- The clause that a cursor adds
unfoldable pub is_after : Option (Str × Str) → RequestRecord → Bool
unfolding is_below position
is_after none r = true
is_after (some cursor) r = is_below cursor (position r)

-- The rows of `requests` in the order, that the filters without the cursor keep
unfoldable pub listing : AuditStore → Str → Option Str → Option Str → List RequestRecord
unfolding filter is_scoped newest
listing s tenant_id team action =
    filter (λ r. is_scoped tenant_id team r && matches action r.action)
      (sorted_by newest s.requests)

unfoldable pub last? : List RequestRecord → Option RequestRecord
last? [] = none
last? (x ∷ []) = some x
last? (x ∷ y ∷ xs) = last? (y ∷ xs)

-- A page, with the cursor that its last row gives
unfoldable pub with_cursor :
    List RequestRecord → Option RequestRecord → Py (List RequestRecord × Option (Str × Str))
unfolding position
with_cursor rows none = err index_error
with_cursor rows (some last) = ok (rows, some (position last))

-- The end of `list_requests`, for the rows that were fetched
unfoldable pub page_of : ℕ → List RequestRecord → Py (List RequestRecord × Option (Str × Str))
unfolding last? with_cursor
page_of limit rows =
    if ltb limit (length rows)
    then with_cursor (take limit rows) (last? (take limit rows))
    else ok (rows, none)

-- `list_requests`
unfoldable pub list_requests :
    AuditStore
    → Str
    → Option Str
    → Option Str
    → ℕ
    → Option (Str × Str)
    → Py (List RequestRecord × Option (Str × Str))
unfolding listing is_after page_of
list_requests s tenant_id team action limit cursor =
    page_of limit (take (suc limit) (filter (is_after cursor) (listing s tenant_id team action)))

-- `ORDER BY span_start, id`
unfoldable pub by_span : FindingRow → FindingRow → Bool
by_span x y =
    ltb x.entry.span.0 y.entry.span.0 || (x.entry.span.0 == y.entry.span.0 && str_leb x.id y.id)

-- `request_trace`
unfoldable pub request_trace : AuditStore → Str → Str → Option Str → List FindingRow
unfolding get_request by_span
request_trace s tenant_id request_id team = elim (get_request s tenant_id request_id team) [
  | none ↦ []
  | some _ ↦ sorted_by by_span (filter (λ f. f.request_id == request_id) s.findings)
]

-- The join of `report_false_positive`: the finding's request is in the scope
unfoldable pub is_reportable : AuditStore → Str → Option Str → Str → FindingRow → Bool
unfolding any is_scoped
is_reportable s tenant_id team finding_id f =
    f.id == finding_id && any (λ r. r.id == f.request_id && is_scoped tenant_id team r) s.requests

-- `UPDATE findings SET false_positive_reported = 1 WHERE id = ?`
unfoldable pub reported : Str → FindingRow → FindingRow
reported finding_id f =
    if f.id == finding_id then record f { false_positive_reported = true } else f

-- `report_false_positive`
unfoldable pub report_false_positive : AuditStore → Str → Str → Option Str → Bool × AuditStore
unfolding is_reportable reported any
report_false_positive s tenant_id finding_id team =
    if any (is_reportable s tenant_id team finding_id) s.findings
    then (true, record s { findings = map (reported finding_id) s.findings })
    else (false, s)

-- `captured_content`
unfoldable pub captured_content : AuditStore → Str → Option CapturedContent
unfolding filter
captured_content s request_id = head? (filter (λ c. c.request_id == request_id) s.captured)

unfoldable pub is_kept : Str → RequestRecord → Bool
unfolding str_ltb
is_kept audit_cutoff r = not (str_ltb r.ts audit_cutoff)

unfoldable pub has_request : List RequestRecord → Str → Bool
unfolding any
has_request requests request_id = any (λ r. r.id == request_id) requests

-- `purge`; deleting a request deletes its findings and its capture
unfoldable pub purge : AuditStore → Str → Str → AuditStore
unfolding is_kept has_request filter
purge s audit_cutoff now =
    let kept = filter (is_kept audit_cutoff) s.requests in
    record s {
      requests = kept;
      findings = filter (λ f. has_request kept f.request_id) s.findings;
      captured =
          filter (λ c. not (str_leb c.expires_at now) && has_request kept c.request_id) s.captured;
    }
