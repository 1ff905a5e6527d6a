-- ===== src/Rules/Collections.antt =====
-- The tables `COLLECTION_SPECS` and `HEADER_MASKS` of tools/sidecar_translator.py.
use Prim.Native.Nat.{bit_or}
use lumina_waf.Common.{ℕ, ◌^◌, Bool, true, false, List, [], ◌∷◌, Option, some, none}
use lumina_waf.Rules.Text.{Text, codes, upper}
use lumina_waf.Rules.Actions.{get}

-- An entry of `COLLECTION_SPECS`: the scope, the bits of the variables, and the name of the column,
-- which is empty for the entry 0. The first component is never read.
pub record Spec : Type 0 where
  pub scope : ℕ
  pub var_mask : ℕ
  pub column : Text

abbrev pub scope_uri : ℕ
scope_uri = 2 ^ 0

abbrev pub scope_headers : ℕ
scope_headers = 2 ^ 1

abbrev pub scope_body : ℕ
scope_body = 2 ^ 2

abbrev spec : ℕ → ℕ → Text → Spec
spec s v c = record { scope = s; var_mask = v; column = c }

-- `COLLECTION_SPECS`
abbrev pub collection_specs : List (Text × Spec)
collection_specs =
    (codes "REQUEST_URI", spec scope_uri (2 ^ 0) (codes ""))
    ∷ (codes "REQUEST_URI_RAW", spec scope_uri (2 ^ 0) (codes ""))
    ∷ (codes "REQUEST_FILENAME", spec scope_uri (2 ^ 11) (codes "LUMINA_COL_REQUEST_FILENAME"))
    ∷ (codes "REQUEST_BASENAME", spec scope_uri (2 ^ 12) (codes "LUMINA_COL_REQUEST_BASENAME"))
    ∷ (codes "PATH_INFO", spec scope_uri (2 ^ 0) (codes ""))
    ∷ (codes "REQUEST_LINE", spec scope_uri (2 ^ 0) (codes ""))
    ∷ (codes "ARGS", spec (bit_or scope_uri scope_body) (2 ^ 1) (codes "LUMINA_COL_ARGS"))
    ∷ (
      codes "ARGS_NAMES",
      spec (bit_or scope_uri scope_body) (2 ^ 6) (codes "LUMINA_COL_ARGS_NAMES"),
    )
    ∷ (codes "ARGS_GET", spec scope_uri (2 ^ 1) (codes "LUMINA_COL_ARGS"))
    ∷ (codes "ARGS_GET_NAMES", spec scope_uri (2 ^ 6) (codes "LUMINA_COL_ARGS_NAMES"))
    ∷ (codes "ARGS_POST", spec scope_body (2 ^ 1) (codes "LUMINA_COL_ARGS"))
    ∷ (codes "ARGS_POST_NAMES", spec scope_body (2 ^ 6) (codes "LUMINA_COL_ARGS_NAMES"))
    ∷ (codes "QUERY_STRING", spec scope_uri (2 ^ 8) (codes ""))
    ∷ (codes "REQUEST_COOKIES", spec scope_headers (2 ^ 2) (codes "LUMINA_COL_REQUEST_COOKIES"))
    ∷ (
      codes "REQUEST_COOKIES_NAMES",
      spec scope_headers (2 ^ 9) (codes "LUMINA_COL_REQUEST_COOKIES_NAMES"),
    )
    ∷ (codes "REQUEST_HEADERS", spec scope_headers (2 ^ 3) (codes "LUMINA_COL_REQUEST_HEADERS"))
    ∷ (codes "REQUEST_HEADERS_NAMES", spec scope_headers (2 ^ 3) (codes ""))
    ∷ (codes "REQUEST_BODY", spec scope_body (2 ^ 4) (codes "LUMINA_COL_REQUEST_BODY"))
    ∷ (codes "XML", spec scope_body (bit_or (2 ^ 13) (2 ^ 14)) (codes "LUMINA_COL_XML"))
    ∷ (codes "JSON", spec scope_body (2 ^ 4) (codes "LUMINA_COL_JSON"))
    ∷ (codes "FILES", spec scope_body (2 ^ 7) (codes "LUMINA_COL_FILES"))
    ∷ (codes "FILES_NAMES", spec scope_body (2 ^ 10) (codes "LUMINA_COL_FILES_NAMES"))
    ∷ (codes "REQBODY_PROCESSOR", spec 0 0 (codes ""))
    ∷ (codes "REQUEST_METHOD", spec 0 0 (codes ""))
    ∷ (codes "REQUEST_PROTOCOL", spec 0 0 (codes ""))
    ∷ (codes "REQUEST_BODY_LENGTH", spec 0 0 (codes ""))
    ∷ (codes "TX", spec 0 0 (codes ""))
    ∷ []

-- `HEADER_MASKS`
abbrev pub header_masks : List (Text × ℕ)
header_masks =
    (codes "CONTENT-LENGTH", 2 ^ 0)
    ∷ (codes "REQUEST-RANGE", 2 ^ 1)
    ∷ (codes "CONNECTION", 2 ^ 2)
    ∷ (codes "HOST", 2 ^ 3)
    ∷ (codes "USER-AGENT", 2 ^ 4)
    ∷ (codes "CONTENT-TYPE", 2 ^ 5)
    ∷ (codes "ACCEPT-ENCODING", 2 ^ 6)
    ∷ (codes "ACCEPT", 2 ^ 7)
    ∷ (codes "COOKIE", 2 ^ 8)
    ∷ (codes "REFERER", 2 ^ 9)
    ∷ (codes "X-FILENAME", 2 ^ 10)
    ∷ (codes "X_FILENAME", 2 ^ 10)
    ∷ (codes "X.FILENAME", 2 ^ 10)
    ∷ (codes "X-FILE-NAME", 2 ^ 10)
    ∷ (codes "RANGE", 2 ^ 11)
    ∷ []

-- `COLLECTION_SPECS.get`
unfoldable pub spec_of : Text → Option Spec
unfolding get
spec_of collection = get collection collection_specs

-- `HEADER_MASKS.get(selector.upper(), 0)`
unfoldable pub header_mask_of : Text → ℕ
unfolding get upper
header_mask_of selector = elim (get (upper selector) header_masks) [ none ↦ 0 | some m ↦ m ]

-- `collection in COLLECTION_SPECS`
abbrev pub is_known : Text → Bool
is_known collection = elim (spec_of collection) [ none ↦ false | some sp ↦ true ]
