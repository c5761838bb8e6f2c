-- ===== src/Lib.antt =====
-- Frostglass is a gateway between programs and model providers: it finds sensitive text in a request,
-- decides by a versioned policy what to do with each finding, masks the payload, sends it to a provider,
-- restores the response, and keeps an audit of what it did without raw values.
--
-- The parts, with the files of the repository that they model (below frostglass/):
--   Errors     errors.py, and the exceptions of the code as values. A call that may raise returns `Py A`.
--   Json       the values of payloads and documents, as `json.loads` gives them. The YAML and JSON
--              parsers are libraries: the models start from the parsed value.
--   Policy     policy/: Models and Precedence (models.py, precedence.py), Loader with Serial (loader.py,
--              the checks of a document, `_serialize`, `_deserialize`), Store (loader.py, `PolicyStore`, the
--              three tables as lists of rows), Engine and Defaults (engine.py, defaults.py).
--   Detection  detection/: Merge (merge.py), Hashing (hashing.py), Engine (engine.py), Structural
--              (structural.py). To the engine a detector is a function from the text to any candidate
--              spans.
--   Masking    masking/: Engine (engine.py), Vault (vault.py), Consistency (consistency.py), Restore
--              (restore.py), Surrogates with Values (surrogates.py). The vault is passed along, also out of a call that raises.
--   Gateway    gateway/: Auth (auth.py), Budget (budget.py), Extract (extract.py), Pipeline (pipeline.py),
--              Routes and Handle (routes_openai.py, routes_anthropic.py: the helpers, and the handler on the
--              state that it changes).
--              A request goes through `detect`, which calls the detection engine and the policy engine on
--              the texts of Extract, `mask`, which calls the masking engine, and `complete`, which calls
--              the providers in turn and `restore`.
--   Audit      audit/: Models (models.py), Store (store.py: the tables, recording, scoped reads, purge),
--              Stats (the aggregates of its dashboard), Recorder (recorder.py, which derives the trace of a request, and retention.py).
--   Admin      admin/: Rbac (rbac.py), Store with Access and Config (store.py, the tables and the
--              statements on them), Cursor (pagination.py), Routes with Views, Requests and
--              Statistics (routes_admin.py). A route gives its answer and the store after the call; Request is the data
--              type of the calls of the routes on the admin store, and `serve` is what a call does.
--   Prelude    what they share: Boolean tests, texts as lists of code points, lists, sorting, association
--              lists, integers, results.
--
-- Parameters. What is not in the repository is an argument: SHA-256, AES-GCM, `json.dumps` and `loads`
-- of a vault mapping, `os.urandom`, `uuid4`, the clock (a number of microseconds; an ISO text in the audit
-- store), the providers and the detectors, regular expressions, the
-- Unicode tables (`IsUnicode` has what is used of ASCII digits and letters), `datetime`, `decimal`, and the
-- package `phonenumbers`. The laws that are used of the cipher are in `IsCrypto`: that
-- decryption undoes encryption, that parsing undoes printing, and that a nonce has twelve bytes.
--
-- Numbers. Confidences are counted in steps of 1/10000. The code's integers are Python's, which have no
-- bound, so none is modelled. Loops recurse on the list that they read. Only `decimal` has fuel, the number
-- itself and one, which is above its count of digits, and `read_pages`, a client of the listing, has the
-- number of pages that it may read, for which the number of rows and one is enough.
--
-- Not modelled: the detectors for secrets, dictionaries and names, which are expressions, an automaton
-- and a model of libraries, the providers' fixed responses, the policy test, content capture, the web application and its settings, and the dashboard.
-- The consistency manager takes the surrogate generator as the argument `generate`, which may raise;
-- `generate` of Masking/Surrogates/Values, given its packages, is one.
-- SQLite's own failures and concurrent requests are not modelled.
pub mod Prelude
pub mod Errors
pub mod Json
pub mod Detection
pub mod Gateway
pub mod Masking
pub mod Policy
pub mod Admin
pub mod Audit
