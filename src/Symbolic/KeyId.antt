-- ===== src/Symbolic/KeyId.antt =====
-- lib/memory/keyId.js: `normalizeKeyId` in its three modes. A raw identifier is absent (null or
-- undefined), a text, or an array whose items may be absent.
use memento_mcp.Base.{
  String, Option, none, some, List, [], ◌∷◌, Outcome, ok, err, or_else, if◌then◌else◌, str_eq,
}

pub data RawKeyId : Type 0 where
  absent : RawKeyId
  text : String → RawKeyId
  array : List (Option String) → RawKeyId

-- The first item of an array, `raw[0] ?? null`.
abbrev pub first_item : List (Option String) → Option String
first_item [] = none
first_item (x ∷ xs) = x

-- Mode `cbr`: the caller's key.
unfoldable pub normalize_cbr : RawKeyId → Option String
normalize_cbr absent = none
normalize_cbr (text k) = some k
normalize_cbr (array xs) = first_item xs

-- Mode `claim`: an empty text is absent, and an array is passed on as it is.
unfoldable pub normalize_claim : RawKeyId → RawKeyId
normalize_claim absent = absent
normalize_claim (text k) = if str_eq k "" then absent else text k
normalize_claim (array xs) = array xs

-- Mode `search`: the text `-1` stands for an absent key.
unfoldable pub normalize_search : RawKeyId → String
normalize_search absent = "-1"
normalize_search (text k) = k
normalize_search (array xs) = or_else (first_item xs) "-1"

pub data Normalized : Type 0 where
  key : Option String → Normalized
  claim_key : RawKeyId → Normalized
  search_key : String → Normalized

-- `normalizeKeyId(raw, { mode })`: any other mode is an error.
pub normalize_key_id : RawKeyId → String → Outcome String Normalized
unfolding normalize_cbr normalize_claim normalize_search
normalize_key_id raw mode =
    if str_eq mode "cbr"
    then ok (key (normalize_cbr raw))
    else if str_eq mode "claim"
    then ok (claim_key (normalize_claim raw))
    else if str_eq mode "search"
    then ok (search_key (normalize_search raw))
    else err mode
